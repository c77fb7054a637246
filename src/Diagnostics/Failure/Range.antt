-- ===== src/Diagnostics/Failure/Range.antt =====
-- Every category that backup_diagnostics.py gives is one that it can label.
use new_backup_center.Base.{
  ◌≡◌, Bool, true, ◌&&◌, Option, some, String, is_some, normalize, if_rule, if◌then◌else◌, str_eq,
  false, arith, eq_iff,
}
use new_backup_center.Base.Dict.{get}
use new_backup_center.Diagnostics.Failure.{
  failure_labels, classify_failure, category_of, general_category,
}

-- The table of labels has the category, as it is written.
unfoldable pub is_category : String → Bool
unfolding get failure_labels normalize
is_category c = is_some (get c failure_labels) && str_eq (normalize (some c)) c

abbrev IsKnown : String → Type 0
IsKnown c = is_category c ≡ true

-- One rule of a ladder, whose category is in the table.
rule : (b : Bool) (x y : String) → IsKnown x → IsKnown y → IsKnown (if b then x else y)
rule = if_rule IsKnown

general_category-IsKnown : (text : String) → IsKnown (general_category text)
unfolding general_category is_category
general_category-IsKnown text = search (rule) depth 14

category_of-IsKnown : (text : String) → IsKnown (category_of text)
unfolding category_of is_category
category_of-IsKnown text = search (rule, general_category-IsKnown) depth 9

-- Every message, also an empty one, gets a category that is in the table of labels and that
-- normalising leaves as it is, so that its label is its own.
pub classify_failure_known :
    (message : Option String) → is_category (classify_failure message) ≡ true
unfolding classify_failure
classify_failure_known message = category_of-IsKnown (normalize message)

and_right : (a b : Bool) → (a && b) ≡ true → b ≡ true
and_right true b h = h
and_right false b h = ground arith

pub is_category-normalize : (c : String) → is_category c ≡ true → normalize (some c) ≡ c
unfolding is_category
is_category-normalize c h =
    (eq_iff (normalize (some c)) c).0
      (and_right (is_some (get c failure_labels)) (str_eq (normalize (some c)) c) h)
