-- ===== src/Logs/Scan/Exact.antt =====
-- Reading a log in chunks finds what reading it whole from its end would find.
use mathlib.Core.List.{append-nil, append_assoc}
use new_backup_center.Base.{
  ℕ, suc, ◌-◌, ◌*◌, ◌<◌, max, ◌≡◌, refl, sym, ap, subst, ◌∙◌, ◌⊎◌, inl, inr, Bool-cases, true,
  false, ◌&&◌, Option, String, List, [], ◌∷◌, ◌++◌, length, length-append, select, take, reverse,
  ltb, ltb→lt, leb, if◌then◌else◌, arith,
}
use new_backup_center.Logs.Store.{Item, Raw, entry, broken}
use new_backup_center.Logs.Scan.{
  Found, is_wanted, walk, goes_on, chunks, scan_recent_entries, with_item,
}
use new_backup_center.Logs.Scan.Walk.{
  chunks-stopped, chunks-walk, goes, goes-more, goes-unreached, step, sub_zero, take-all,
  take-empty,
}

module _ (seq_field : Item → ℕ) (after_seq limit : ℕ) (tenant_id : Option String) where
  -- What is not known yet, from the end of the log on.
  unfoldable pub newer : List Raw → List Item
  newer [] = []
  newer (broken ∷ raws) = newer raws
  newer (entry item ∷ raws) =
      let rest = newer raws in if leb (seq_field item) after_seq then [] else item ∷ rest

  -- The highest number among the entries, if it is above the first one.
  unfoldable pub top : ℕ → List Item → ℕ
  top highest [] = highest
  top highest (item ∷ items) =
      top (if ltb highest (seq_field item) then seq_field item else highest) items

  abbrev pub visible : List Raw → List Item
  visible raws = select (is_wanted tenant_id) (newer raws)

  abbrev room : Found → ℕ
  room found = limit - length found.entries_reversed

  room-last :
      (item : Item) (found : Found)
      → goes seq_field after_seq limit tenant_id found ≡ true
      → leb limit
          (length (with_item seq_field after_seq limit tenant_id item found).entries_reversed)
        ≡ true
      → room found ≡ 1
  unfolding goes goes_on
  room-last item found h full =
      ground (arith, h, full, length-append found.entries_reversed (item ∷ []))

  room-more :
      (item : Item) (found : Found)
      → goes seq_field after_seq limit tenant_id found ≡ true
      → room found ≡ suc (room (with_item seq_field after_seq limit tenant_id item found))
  unfolding goes goes_on
  room-more item found h = ground (arith, h, length-append found.entries_reversed (item ∷ []))

  walk-finds :
      (raws : List Raw) (found : Found)
      → goes seq_field after_seq limit tenant_id found ≡ true
      → ((step seq_field after_seq limit tenant_id raws found).entries_reversed
          ≡ found.entries_reversed ++ take (room found) (visible raws))
        × ((step seq_field after_seq limit tenant_id raws found).last_seq
            ≡ top found.last_seq (take (room found) (visible raws)))
  unfolding step walk newer select take top
  walk-finds [] found h =
      rw (take-empty {A = Item} (room found)) (sym (append-nil found.entries_reversed), refl)
  walk-finds (broken ∷ raws) found h = walk-finds raws found h
  walk-finds (entry item ∷ raws) found h =
      let after = with_item seq_field after_seq limit tenant_id item found in
      elim (Bool-cases (leb (seq_field item) after_seq)) [
        | inl known ↦
            rw (known, take-empty {A = Item} (room found))
              (sym (append-nil found.entries_reversed), refl)
        | inr fresh ↦ elim (Bool-cases (is_wanted tenant_id item)) [
          | inr other ↦ rw (fresh, other) (walk-finds raws found h)
          | inl wanted ↦ elim (Bool-cases (leb limit (length after.entries_reversed))) [
            | inl full ↦ rw (fresh, wanted, full, room-last item found h full) (refl, refl)
            | inr more ↦
                let rest = walk-finds raws after (
                  goes-more seq_field after_seq limit tenant_id after more
                    (goes-unreached seq_field after_seq limit tenant_id found h)) in
                rw (fresh, wanted, more, room-more item found h)
                  (
                    rest.0
                        ∙ append_assoc found.entries_reversed (item ∷ [])
                            (take (room after) (visible raws)),
                    rest.1,
                  )
          ]
        ]
      ]

  abbrev start_of_scan : Found
  start_of_scan = record { entries_reversed = []; last_seq = after_seq; reached_boundary = false }

  scanned : List Raw → Found
  scanned raws =
      chunks seq_field after_seq limit tenant_id (length raws) (max (limit * 4) 500) (length raws)
        raws start_of_scan

  goes-start : 0 < limit → goes seq_field after_seq limit tenant_id start_of_scan ≡ true
  unfolding goes goes_on
  goes-start h = ground (arith, h)

  goes-nowhere : limit ≡ 0 → goes seq_field after_seq limit tenant_id start_of_scan ≡ false
  unfolding goes goes_on
  goes-nowhere h = ground (arith, h)

  scanned-walk :
      0 < limit
      → (raws : List Raw)
      → scanned raws ≡ step seq_field after_seq limit tenant_id (reverse raws) start_of_scan
  unfolding scanned
  scanned-walk h raws =
      chunks-walk seq_field after_seq limit tenant_id (length raws) (max (limit * 4) 500)
        (length raws) raws start_of_scan (omega arith) (omega arith) (goes-start h)
      ∙ ap (λ whole. step seq_field after_seq limit tenant_id (reverse whole) start_of_scan)
          (take-all raws)

  scanned-nothing : limit ≡ 0 → (raws : List Raw) → scanned raws ≡ start_of_scan
  unfolding scanned
  scanned-nothing h raws =
      chunks-stopped seq_field after_seq limit tenant_id (length raws) (max (limit * 4) 500)
        (length raws) raws start_of_scan (goes-nowhere h)

  -- the first n visible entries have been found
  abbrev FindsUpTo : Found → List Raw → ℕ → Type 0
  FindsUpTo found raws n =
      (found.entries_reversed ≡ take n (visible (reverse raws)))
      × (found.last_seq ≡ top after_seq (take n (visible (reverse raws))))

  scanned-finds :
      (raws : List Raw)
      → ((scanned raws).entries_reversed ≡ take limit (visible (reverse raws)))
        × ((scanned raws).last_seq ≡ top after_seq (take limit (visible (reverse raws))))
  unfolding take top
  scanned-finds raws = elim (Bool-cases (ltb 0 limit)) [
    | inl some_room ↦
        let h : 0 < limit = ltb→lt 0 limit some_room in
        rw (scanned-walk h raws) (
          subst
            (FindsUpTo (step seq_field after_seq limit tenant_id (reverse raws) start_of_scan) raws)
            (sub_zero limit) (walk-finds (reverse raws) start_of_scan (goes-start h)))
    | inr none_room ↦
        let h : limit ≡ 0 = ground (arith, none_room) in
        rw (scanned-nothing h raws) (subst (FindsUpTo start_of_scan raws) (sym h) (refl, refl))
  ]

  -- Where the log's counter does not say that nothing is new, the scan gives the newest entries that are
  -- not known yet and belong to the tenant, at most `limit` of them and in their order, and the highest
  -- number among them. Only what stands after the last known entry is looked at.
  pub scan_exact :
      (latest_seq : ℕ) (raws : List Raw)
      → (latest_seq ≡ 0) ⊎ (after_seq < latest_seq)
      → scan_recent_entries seq_field after_seq limit tenant_id latest_seq raws ≡ (
        reverse (take limit (visible (reverse raws))),
        top after_seq (take limit (visible (reverse raws))),
      )
  unfolding scan_recent_entries scanned
  scan_exact latest_seq raws something_new =
      let open_scan : (ltb 0 latest_seq && leb latest_seq after_seq) ≡ false =
        ground (arith, something_new) in
      rw (open_scan, (scanned-finds raws).0, (scanned-finds raws).1) refl
