-- ===== src/Diagnostics/Failure.antt =====
-- backup_diagnostics.py: the category of a failure, its label, and whether it is transient. The rules
-- of app/tasks/backups.py on retries stand in `Retry`.
pub mod Range
pub mod Retry
pub mod Samples
use new_backup_center.Base.{
  Bool, true, false, ◌&&◌, ◌||◌, Option, none, some, String, List, [], ◌∷◌, str_eq, normalize,
  is_in, contains, contains_any, if◌then◌else◌, strip, lower,
}
use new_backup_center.Base.Dict.{Dict, get}

unfoldable pub failure_labels : Dict String
failure_labels =
    ("auth", "Autenticacao")
    ∷ ("timeout", "Timeout")
    ∷ ("banner_timeout", "Banner SSH (sobrecarga/lentidao)")
    ∷ ("jump_session_closed", "Sessao Jump Host encerrada")
    ∷ ("port_refused", "Porta recusada")
    ∷ ("vpn", "VPN")
    ∷ ("vpn_worker", "Worker VPN")
    ∷ ("config", "Cadastro/configuração")
    ∷ ("no_ping", "Sem ping")
    ∷ ("connection", "Conectividade")
    ∷ ("circuit_breaker", "Jump Host bloqueado (Circuit Breaker)")
    ∷ ("script", "Script")
    ∷ ("unknown", "Outros")
    ∷ []

abbrev pub transient_failure_categories : List String
transient_failure_categories = "timeout" ∷ "connection" ∷ "vpn" ∷ "jump_session_closed" ∷ []

abbrev session_markers : List String
session_markers =
    "sessao com jump host encerrada" ∷ "sessão com jump host encerrada"
    ∷ "nao foi possivel abrir shell interativo no jump host"
    ∷ "não foi possível abrir shell interativo no jump host" ∷ []

abbrev refused_credentials : List String
refused_credentials =
    "credenciais foram recusadas" ∷ "credenciais recusadas" ∷ "credencial recusada"
    ∷ "credenciais invalidas" ∷ "credenciais inválidas" ∷ []

abbrev timeout_markers : List String
timeout_markers =
    "timed out" ∷ "timeout" ∷ "timeoutexception" ∷ "softtimelimitexceeded" ∷ "tempo esgotado"
    ∷ "tempo limite" ∷ []

abbrev connection_markers : List String
connection_markers =
    "rede inalcan" ∷ "não foi possível acessar a porta" ∷ "nao foi possivel acessar a porta"
    ∷ "precheck/fail-fast" ∷ "falha de conectividade" ∷ "conectividade com o dispositivo"
    ∷ "estabelecer conexao" ∷ "estabelecer conexão" ∷ "estabelecer conexao valida"
    ∷ "encerrada pelo equipamento" ∷ "conexao foi encerrada" ∷ "conexão foi encerrada"
    ∷ "rota/acesso de rede" ∷ "nao ha rota" ∷ "não há rota" ∷ "no route to host" ∷ "kex_exchange"
    ∷ "escape character" ∷ []

abbrev refused_markers : List String
refused_markers =
    "connection refused" ∷ "refused" ∷ "errno 111" ∷ "port closed" ∷ "porta recusou"
    ∷ "recusou a conex" ∷ "a porta recusou" ∷ []

abbrev socket_markers : List String
socket_markers =
    "eof" ∷ "connection closed" ∷ "socket" ∷ "network" ∷ "host unreachable" ∷ "no route to host"
    ∷ "tcp connection" ∷ "ssh" ∷ "telnet" ∷ []

abbrev ping_markers : List String
ping_markers = "sem resposta ao ping" ∷ "no ping" ∷ "icmp" ∷ "100% packet loss" ∷ []

abbrev auth_markers : List String
auth_markers =
    "auth" ∷ "autentic" ∷ "credencia" ∷ "senha" ∷ "password" ∷ "access denied" ∷ "permission denied"
    ∷ "login failed" ∷ "unauthorized" ∷ "invalid credentials" ∷ "has been locked" ∷ "cannot log on"
    ∷ []

abbrev vpn_worker_markers : List String
vpn_worker_markers =
    "worker vpn" ∷ "networkmanager indispon" ∷ "nmcli não encontrado" ∷ "nmcli nao encontrado" ∷ []

abbrev config_markers : List String
config_markers =
    "grafana_url" ∷ "api_key" ∷ "cadastro incomplet" ∷ "cadastro invalid" ∷ "cadastro inválid" ∷ []

abbrev vpn_markers : List String
vpn_markers = "vpn" ∷ "nmcli" ∷ "l2tp" ∷ "ipsec" ∷ "ppp" ∷ []

abbrev script_markers : List String
script_markers =
    "script" ∷ "traceback" ∷ "syntaxerror" ∷ "attributeerror" ∷ "typeerror" ∷ "keyerror"
    ∷ "modulenotfound" ∷ "importerror" ∷ "configuracao retornada" ∷ "configuração retornada"
    ∷ "retornou configuracao" ∷ "retornou configuração" ∷ "nao retornou configuracao"
    ∷ "não retornou configuração" ∷ "coleta do backup" ∷ "integridade do arquivo"
    ∷ "arquivo muito pequeno" ∷ "muito curta" ∷ "configuracao valida" ∷ "configuração válida"
    ∷ "criacao do dump" ∷ "criação do dump" ∷ "pg_dump" ∷ "dump retornou" ∷ "dump do zabbix" ∷ []

-- "circuit breaker" together with a word for its opening
unfoldable pub tells_circuit_breaker : String → Bool
tells_circuit_breaker text =
    contains text "circuit breaker"
    && (contains text "aberto" || contains text "ativado" || contains text "bloqueado")

abbrev pub banner_marker : String
banner_marker = "error reading ssh protocol banner"

-- The rules from the timeouts on, in their order.
general_category : String → String
general_category text =
    if contains_any text timeout_markers
    then "timeout"
    else if contains_any text connection_markers
    then "connection"
    else if contains_any text refused_markers
    then "port_refused"
    else if contains_any text socket_markers
    then "connection"
    else if contains_any text ping_markers
    then "no_ping"
    else if contains_any text auth_markers
    then "auth"
    else if contains_any text vpn_worker_markers
    then "vpn_worker"
    else if contains_any text config_markers
    then "config"
    else if contains_any text vpn_markers
    then "vpn"
    else if contains_any text script_markers
    then "script"
    else "unknown"

-- `classify_failure` from the stripped and lower-cased text on
unfoldable pub category_of : String → String
unfolding general_category
category_of text =
    if str_eq text ""
    then "unknown"
    else if tells_circuit_breaker text
    then "circuit_breaker"
    else if contains text banner_marker
    then "banner_timeout"
    else if contains_any text session_markers
    then "jump_session_closed"
    else if contains text "jump host respondeu mas o dispositivo destino"
    then "connection"
    else if contains_any text refused_credentials
    then "auth"
    else general_category text

unfoldable pub classify_failure : Option String → String
unfolding category_of normalize
classify_failure message = category_of (normalize message)

label_or : Option String → String
label_or none = "Outros"
label_or (some label) = label

unfoldable pub failure_label : Option String → String
unfolding label_or get normalize failure_labels
failure_label category = label_or (get (normalize category) failure_labels)

unfoldable pub is_transient_failure : Option String → Bool
unfolding normalize
is_transient_failure category = is_in (normalize category) transient_failure_categories
