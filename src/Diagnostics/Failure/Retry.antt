-- ===== src/Diagnostics/Failure/Retry.antt =====
-- app/tasks/backups.py: which failures a batch tries once more, and which messages tell of a jump host
-- that is saturated.
pub mod Policy
use new_backup_center.Base.{
  Bool, true, false, not, ◌&&◌, ◌||◌, Option, some, String, List, [], ◌∷◌, str_eq, normalize, is_in,
  contains_any, if◌then◌else◌,
}
use new_backup_center.Settings.{
  Env, normalize_retry_token, transient_retry_denylist_device_names,
  transient_retry_denylist_device_ids,
}
use new_backup_center.Diagnostics.Failure.{is_transient_failure}

abbrev slot_markers : List String
slot_markers =
    "timeout aguardando slot do jump host" ∷ "aguardando slot do jump host"
    ∷ "jump host respondeu mas o dispositivo destino" ∷ "rede inalcançável (jump_channel)"
    ∷ "rede inalcanavel (jump_channel)" ∷ []

abbrev saturation_markers : List String
saturation_markers =
    "error reading ssh protocol banner" ∷ "timeout opening channel" ∷ "channelexception"
    ∷ "no existing session" ∷ "sessao com jump host encerrada" ∷ "sessão com jump host encerrada"
    ∷ "banner exchange" ∷ "kex_exchange_identification" ∷ []

abbrev severe_markers : List String
severe_markers =
    "sessao com jump host encerrada antes do shell ficar disponivel"
    ∷ "sessão com jump host encerrada antes do shell ficar disponivel"
    ∷ "nao foi possivel abrir shell interativo no jump host"
    ∷ "não foi possível abrir shell interativo no jump host" ∷ "error reading ssh protocol banner"
    ∷ "timeout opening channel" ∷ "kex_exchange_identification" ∷ "connection reset by peer" ∷ []

abbrev nmcli_markers : List String
nmcli_markers =
    "networkmanager indisponivel neste worker" ∷ "networkmanager indisponível neste worker"
    ∷ "backend do networkmanager indisponivel" ∷ "backend do networkmanager indisponível"
    ∷ "nmcli general status" ∷ "could not create nmclient object"
    ∷ "could not connect: no such file or directory" ∷ "nmcli nao encontrado"
    ∷ "nmcli não encontrado" ∷ []

abbrev hard_markers : List String
hard_markers =
    "connection refused" ∷ "no route to host" ∷ "network is unreachable"
    ∷ "unable to connect to remote host" ∷ "unable to connect to port" ∷ "timeout opening channel"
    ∷ "administratively prohibited" ∷ "jump host nao conseguiu abrir canal tcp"
    ∷ "jump host não conseguiu abrir canal tcp" ∷ "authentication failed" ∷ "invalid username"
    ∷ "invalid password" ∷ "unauthorized" ∷ "access denied" ∷ "permission denied" ∷ "wrong tcp port"
    ∷ "incorrect hostname" ∷ []

-- `not (str_eq text "")` is the early return for an empty text.
unfoldable pub message_indicates_jump_host_saturation : Option String → Bool
message_indicates_jump_host_saturation message =
    let text = normalize message in
    not (str_eq text "")
    && not (contains_any text slot_markers)
    && contains_any text saturation_markers

unfoldable pub message_indicates_severe_jump_host_saturation : Option String → Bool
message_indicates_severe_jump_host_saturation message =
    let text = normalize message in not (str_eq text "") && contains_any text severe_markers

unfoldable pub is_nmcli_backend_unavailable_message : Option String → Bool
is_nmcli_backend_unavailable_message message =
    let text = normalize message in not (str_eq text "") && contains_any text nmcli_markers

-- A token that is not empty and stands in the set.
listed : String → List String → Bool
listed token denied = not (str_eq token "") && is_in token denied

unfoldable pub is_transient_retry_denied_for_device : Env → (name id : Option String) → Bool
unfolding listed
is_transient_retry_denied_for_device env name id =
    listed (normalize_retry_token id) (transient_retry_denylist_device_ids env)
    || listed (normalize_retry_token name) (transient_retry_denylist_device_names env)

unfoldable pub should_retry_transient_failure :
    Env → (category message device_name device_id : Option String) → Bool
should_retry_transient_failure env category message device_name device_id =
    let normalized_category = normalize category in
    let text = normalize message in
    if str_eq normalized_category ""
    then false
    else if not (is_transient_failure (some normalized_category))
    then false
    else if is_nmcli_backend_unavailable_message (some text)
    then false
    else if is_transient_retry_denied_for_device env device_name device_id
    then false
    else if str_eq normalized_category "connection" && contains_any text hard_markers
    then false
    else true
