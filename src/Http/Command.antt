-- ===== src/Http/Command.antt =====
-- `httpHandleCommand`: what becomes of a request whose headers are complete.
use shellinabox.Base.{
  ℕ, ◌+◌, ◌-◌, ◌*◌, ◌%◌, ◌^◌, Bool, true, false, not, ◌&&◌, ◌||◌, Option, none, some, List, [], ◌∷◌,
  ◌++◌, Bytes, ltb, leb, ◌==◌, ◌==ˢ◌, if◌then◌else◌, codes, get_or, length, decimal, take,
}
use shellinabox.Trie.{Node, get_from_trie}
use shellinabox.Http.{get_header}
use shellinabox.Terminal.{crlf}

-- `struct HttpHandler`: which handlers are registered, each by a number.
pub record Handler : Type 0 where
  pub handler : Option ℕ
  pub websocket_handler : Option ℕ

-- What the function reads of the connection.
pub record Request : Type 0 where
  pub method : Bytes
  pub path : Bytes
  pub header : List (Bytes × Bytes)
  pub port : ℕ
  pub is_ssl : Bool

-- `strtol(s, &endptr, 10)` behind the white space and the sign: the number that the digits give on
-- top of `acc`, and whether any digit has been read and nothing is left.
unfoldable pub digits_value : ℕ → Bool → Bytes → ℕ × Bool
digits_value acc any [] = (acc, any)
digits_value acc any (c ∷ s) =
    let rest = digits_value (acc * 10 + (c - b'0')) true s in
    if leb b'0' c && leb c b'9' then rest else (acc, false)

-- A `long` above its largest value stops there; an `int` keeps 32 bits, and is `none` if negative.
unfoldable pub to_int : ℕ → Option ℕ
to_int n =
    let m = (if ltb n (2 ^ 63) then n else 2 ^ 63 - 1) % 2 ^ 32 in
    if ltb m (2 ^ 31) then some m else none

unfoldable pub skip_white : Bytes → Bytes
skip_white [] = []
skip_white (c ∷ s) = if c == b' ' || (leb 9 c && leb c 13) then skip_white s else c ∷ s

-- The number behind a minus sign, as an `int`.
unfoldable pub to_negative : ℕ → Option ℕ
to_negative n =
    let m = (2 ^ 32 - (if ltb n (2 ^ 63) then n else 2 ^ 63) % 2 ^ 32) % 2 ^ 32 in
    if ltb m (2 ^ 31) then some m else none

unfoldable pub signed_value : Bytes → Option ℕ
unfolding digits_value to_int to_negative
signed_value [] = none
signed_value (c ∷ s) =
    let minus = digits_value 0 false s in
    let plain = digits_value 0 false (c ∷ s) in
    if c == b'-'
    then (if minus.1 then to_negative minus.0 else none)
    else if c == b'+'
    then (if minus.1 then to_int minus.0 else none)
    else if plain.1
    then to_int plain.0
    else none

-- `http->expecting` by the header `content-length`.
unfoldable pub content_length : List (Bytes × Bytes) → Option ℕ
unfolding get_header signed_value skip_white
content_length header = elim (get_header (codes "content-length") header) [
  | none ↦ none
  | some s ↦ signed_value (skip_white s)
]

-- A character that no host name has; a `char` from 128 on is negative.
unfoldable pub is_bad_host : ℕ → Bool
is_bad_host ch =
    not (ch == b'-' || ch == b'.')
    && (ltb ch b'0'
        || (ltb b'9' ch && ltb ch b'A')
        || (ltb b'Z' ch && ltb ch b'a')
        || (ltb b'z' ch && leb ch 0x7E)
        || leb 128 ch)

-- The host in front of its port, or `none` for a bad one.
unfoldable pub host_name : Bytes → Option Bytes
unfolding is_bad_host
host_name [] = some []
host_name (ch ∷ s) =
    let rest = host_name s in
    if ch == b':'
    then some []
    else if is_bad_host ch
    then none
    else elim rest [ none ↦ none | some h ↦ some (ch ∷ h) ]

-- The slashes at the end of a text, which is given from its end.
unfoldable pub back_up : Bytes → Bytes → Bytes × Bytes
back_up [] diff = ([], diff)
back_up (c ∷ front) diff = if c == b'/' then back_up front (c ∷ diff) else (c ∷ front, diff)

unfoldable pub reverse_onto : Bytes → Bytes → Bytes
reverse_onto [] acc = acc
reverse_onto (c ∷ s) acc = reverse_onto s (c ∷ acc)

-- `matchedPath` and `diff`, where `rest` is what the trie leaves of the path.
unfoldable pub match_path : Bytes → Bytes → Bytes × Bytes
unfolding back_up reverse_onto
match_path path rest =
    let front = take (length path - length rest) path in
    let b = back_up (reverse_onto front []) rest in (reverse_onto b.0 [], b.1)

-- `strchr(diff, '?')`: what stands in front of it, and what stands behind it.
unfoldable pub split_query : Bytes → Bytes × Option Bytes
split_query [] = ([], none)
split_query (c ∷ s) = let r = split_query s in if c == b'?' then ([], some s) else (c ∷ r.0, r.1)

-- What is done with a request: a reply by its status, a reply to OPTIONS, a web socket with the
-- text of the reply, or a handler with the matched path, the path behind it and the query.
pub data Decision : Type 0 where
  refuse : ℕ → Decision
  options : Decision
  upgrade : ℕ → Bytes → Decision
  serve : ℕ → Bytes → Option Bytes → Option Bytes → Decision

unfoldable pub starts_well : Bytes → Bool
starts_well diff = let c = get_or diff 0 0 in c == 0 || c == b'/' || c == b'?' || c == b'#'

-- The branch for a handler, from the label `bad_ws_upgrade` on.
unfoldable pub serve_path : Handler → Bytes → Bytes → Decision
unfolding match_path split_query starts_well
serve_path h path rest = elim h.handler [
  | none ↦ refuse 404
  | some f ↦
      let m = match_path path rest in
      let q = split_query m.1 in
      let info = if length q.0 == 0 then none else some q.0 in
      if starts_well m.1 then serve f m.0 info q.1 else refuse 404
]

-- No control character.
unfoldable pub is_clean : Bytes → Bool
is_clean [] = true
is_clean (c ∷ s) = leb b' ' c && is_clean s

unfoldable pub port_text : Request → Bytes
port_text r = if r.port == (if r.is_ssl then 443 else 80) then [] else b':' ∷ decimal r.port

unfoldable pub upgrade_response : Request → Bytes → Option Bytes → Option Bytes → Bytes
unfolding port_text
upgrade_response r origin protocol host =
    codes "HTTP/1.1 101 Web Socket Protocol Handshake"
    ++ crlf
    ++ codes "Upgrade: WebSocket"
    ++ crlf
    ++ codes "Connection: Upgrade"
    ++ crlf
    ++ codes "WebSocket-Origin: "
    ++ origin
    ++ crlf
    ++ codes "WebSocket-Location: "
    ++ (if r.is_ssl then codes "wss" else codes "ws")
    ++ codes "://"
    ++ elim host as (λ x. Bytes) [
      | none ↦ codes "localhost"
      | some h ↦ if length h == 0 then codes "localhost" else h
    ]
    ++ port_text r
    ++ r.path
    ++ crlf
    ++ elim protocol as (λ x. Bytes) [
      | none ↦ []
      | some p ↦ codes "WebSocket-Protocol: " ++ p ++ crlf
    ]
    ++ crlf

-- `upgrade && !strcmp(upgrade, "WebSocket")`, and likewise for other headers.
unfoldable pub has_value : Bytes → Bytes → List (Bytes × Bytes) → Bool
unfolding get_header
has_value key value header = elim (get_header key header) [ none ↦ false | some v ↦ v ==ˢ value ]

unfoldable pub is_clean_option : Option Bytes → Bool
unfolding is_clean
is_clean_option none = true
is_clean_option (some s) = is_clean s

-- The branch for a handshake: `none` where the request is none, or a bad one.
unfoldable pub handshake : Request → Option Bytes → Handler → Option Decision
unfolding has_value is_clean_option upgrade_response get_header is_clean
handshake r host h = elim h.websocket_handler [
  | none ↦ none
  | some ws ↦
      if has_value (codes "upgrade") (codes "WebSocket") r.header
        && has_value (codes "connection") (codes "Upgrade") r.header
      then elim (get_header (codes "origin") r.header) [
        | none ↦ none
        | some origin ↦
            let protocol = get_header (codes "websocket-protocol") r.header in
            if is_clean origin && is_clean_option protocol
            then some (upgrade ws (upgrade_response r origin protocol host))
            else none
      ]
      else none
]

-- The method is one that is served.
unfoldable pub is_served : Bytes → Bool
is_served m = m ==ˢ codes "GET" || m ==ˢ codes "POST" || m ==ˢ codes "HEAD"

unfoldable pub is_known : Bytes → Bool
is_known m =
    m ==ˢ codes "PUT" || m ==ˢ codes "DELETE" || m ==ˢ codes "TRACE" || m ==ˢ codes "CONNECT"

-- `host`, without its port: `none` where the host is bad.
unfoldable pub checked_host : List (Bytes × Bytes) → Option (Option Bytes)
unfolding host_name get_header
checked_host header = elim (get_header (codes "host") header) [
  | none ↦ some none
  | some host ↦ elim (host_name host) [ none ↦ none | some h ↦ some (some h) ]
]

-- The part behind the test of the method.
unfoldable pub find_handler : Node Handler → Request → Decision
unfolding checked_host handshake serve_path
find_handler handlers r = elim (checked_host r.header) [
  | none ↦ refuse 400
  | some host ↦ elim (get_from_trie handlers r.path) [
    | none ↦ refuse 404
    | some (none, rest) ↦ refuse 404
    | some (some h, rest) ↦ elim (handshake r host h) [
      | some d ↦ d
      | none ↦ serve_path h r.path rest
    ]
  ]
]

-- `httpHandleCommand`
unfoldable pub decide : Node Handler → Request → Decision
unfolding is_served is_known find_handler
decide handlers r =
    if r.method ==ˢ codes "OPTIONS"
    then options
    else if is_served r.method
    then find_handler handlers r
    else if is_known r.method
    then refuse 405
    else refuse 501

-- `http->expecting` when the function returns.
unfoldable pub expecting_of : Request → Option ℕ
expecting_of r =
    let unknown =
      r.method ==ˢ codes "OPTIONS" || r.method ==ˢ codes "GET" || r.method ==ˢ codes "HEAD" in
    elim (content_length r.header) [ none ↦ if unknown then some 0 else none | some n ↦ some n ]
