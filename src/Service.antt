-- ===== src/Service.antt =====
-- shellinabox/service.c: the description of a service on the command line, with parseUserArg and
-- parseGroupArg of shellinabox/privileges.c.
pub mod Mount
pub mod Owners
pub mod Sound
pub mod Describe
use shellinabox.Base.{
  ℕ, zero, suc, ◌-◌, ◌%◌, ◌^◌, Bool, true, false, not, ◌&&◌, ◌||◌, Option, none, some, List, [],
  ◌∷◌, ◌++◌, Bytes, ltb, leb, ◌==◌, ◌==ˢ◌, if◌then◌else◌, codes, get_or, length, take, drop,
}
use shellinabox.Terminal.{int_max}
use shellinabox.ExternalFile.{skip_slashes}
use shellinabox.Http.Command.{digits_value, skip_white}

-- `struct Service`, without its number in the table. An id of -1 is `none`.
pub record Service : Type 0 where
  pub path : Bytes
  pub use_login : Bool
  pub use_home_dir : Bool
  pub auth_user : ℕ
  pub use_default_shell : Bool
  pub uid : Option ℕ
  pub gid : Option ℕ
  pub user : Option Bytes
  pub group : Option Bytes
  pub cwd : Option Bytes
  pub cmdline : Option Bytes

-- What the function asks the system: whether there is a /bin/login and who calls, whether there is
-- PAM, and the user and group databases, where `none` is fatal.
pub record System : Type 0 where
  pub has_login : Bool
  pub is_root : Bool
  pub supports_pam : Bool
  pub get_user_id : Bytes → Option ℕ
  pub get_user_name : ℕ → Bytes
  pub get_group_id : Bytes → Option ℕ
  pub get_group_name : ℕ → Bytes

-- `strchr`: what stands in front of the byte and behind it.
unfoldable pub split_at : ℕ → Bytes → Option (Bytes × Bytes)
split_at ch [] = none
split_at ch (c ∷ s) = elim (c == ch) [
  | true ↦ some ([], s)
  | false ↦ elim (split_at ch s) [ none ↦ none | some (a, b) ↦ some (c ∷ a, b) ]
]

-- The slashes at the end are taken off.
unfoldable pub drop_slashes : Bytes → Bytes
drop_slashes [] = []
drop_slashes (c ∷ s) =
    let rest = drop_slashes s in if length rest == 0 && c == b'/' then [] else c ∷ rest

-- `strtoul`, where all of the text is a number of at most INT_MAX.
unfoldable pub small : ℕ → Option ℕ
small n = if leb n int_max then some n else none

unfoldable pub signed_number : Bytes → Option ℕ
unfolding digits_value small
signed_number [] = none
signed_number (c ∷ s) =
    let behind = digits_value 0 false s in
    let whole = digits_value 0 false (c ∷ s) in
    if c == b'-'
    then (if behind.1 && ltb behind.0 (2 ^ 64) then small ((2 ^ 64 - behind.0) % 2 ^ 64) else none)
    else if c == b'+'
    then (if behind.1 && ltb behind.0 (2 ^ 64) then small behind.0 else none)
    else if whole.1 && ltb whole.0 (2 ^ 64)
    then small whole.0
    else none

-- An empty text is read as 0.
unfoldable pub id_number : Bytes → Option ℕ
unfolding signed_number skip_white
id_number arg = if length arg == 0 then some 0 else signed_number (skip_white arg)

-- `parseUserArg` and `parseGroupArg`: the id and the name; `get_id` and `get_name` are getUserId and
-- getUserName, or those for groups.
unfoldable pub parse_id : (Bytes → Option ℕ) → (ℕ → Bytes) → Bytes → Option (ℕ × Bytes)
unfolding id_number
parse_id get_id get_name arg = elim (id_number arg) [
  | some n ↦ some (n, get_name n)
  | none ↦ elim (get_id arg) [ none ↦ none | some n ↦ some (n, arg) ]
]

unfoldable pub is_digit : ℕ → Bool
is_digit ch = leb b'0' ch && leb ch b'9'

unfoldable pub is_host_char : ℕ → Bool
unfolding is_digit
is_host_char ch =
    is_digit ch
    || (leb b'A' ch && leb ch b'Z')
    || (leb b'a' ch && leb ch b'z')
    || ch == b'-'
    || ch == b'.'

unfoldable pub all_of : (ℕ → Bool) → Bytes → Bool
all_of p [] = true
all_of p (c ∷ s) = p c && all_of p s

-- The host and the port behind `SSH`.
unfoldable pub ssh_target : Bytes → Bytes × Bytes
unfolding split_at
ssh_target arg = elim (split_at b':' arg) [
  | none ↦ (codes "localhost", codes "22")
  | some (word, rest) ↦
      if length rest == 0 then (codes "localhost", codes "22") else elim (split_at b':' rest) [
        | none ↦ (rest, codes "22")
        | some (host, port) ↦ (host, port)
      ]
]

abbrev pub ssh_options : Bytes
ssh_options =
    codes "ssh -a -e none -i /dev/null -x -oChallengeResponseAuthentication=no "
    ++ (codes "-oCheckHostIP=no -oClearAllForwardings=yes -oCompression=no "
        ++ (codes "-oControlMaster=no -oGSSAPIAuthentication=no "
            ++ (codes "-oHostbasedAuthentication=no -oIdentitiesOnly=yes "
                ++ (codes "-oKbdInteractiveAuthentication=yes -oPasswordAuthentication=yes "
                    ++ (codes "-oPreferredAuthentications=keyboard-interactive,password "
                        ++ (codes "-oPubkeyAuthentication=no -oRhostsRSAAuthentication=no "
                            ++ (codes
                                  "-oRSAAuthentication=no -oStrictHostKeyChecking=no -oTunnel=no "
                                ++ (codes "-oUserKnownHostsFile=/dev/null -oVerifyHostKeyDNS=no "
                                    ++ codes " -oLogLevel=FATAL -p"))))))))

unfoldable pub ssh_cmdline : Bytes → Bytes → Bytes
ssh_cmdline port host = ssh_options ++ (port ++ (codes " %s@" ++ host))

unfoldable pub is_ssh : Bytes → Bool
is_ssh arg = arg ==ˢ codes "SSH" || take 4 arg ==ˢ codes "SSH:"

unfoldable pub ssh_service : Bytes → Bytes → Option Service
unfolding ssh_target all_of is_host_char is_digit ssh_cmdline
ssh_service path arg =
    let t = ssh_target arg in
    if all_of is_host_char t.0
    then (if all_of is_digit t.1
        then some (record {
          path = path;
          use_login = false;
          use_home_dir = false;
          auth_user = 2;
          use_default_shell = false;
          uid = none;
          gid = none;
          user = none;
          group = none;
          cwd = some (codes "/");
          cmdline = some (ssh_cmdline t.1 t.0);
        })
        else none)
    else none

unfoldable pub login_service : Bytes → Service
login_service path = record {
  path = path;
  use_login = true;
  use_home_dir = false;
  auth_user = 0;
  use_default_shell = false;
  uid = some 0;
  gid = some 0;
  user = some (codes "root");
  group = some (codes "root");
  cwd = some (codes "/");
  cmdline = some (codes "/bin/login -p -h ${peer}");
}

-- Who runs an application: the value of `authUser`, the user and the group, and the rest of the text.
pub record Owner : Type 0 where
  pub auth_user : ℕ
  pub user : Option (ℕ × Bytes)
  pub group : Option (ℕ × Bytes)
  pub rest : Bytes

unfoldable pub parse_owner : System → Bytes → Option Owner
unfolding split_at parse_id
parse_owner sys arg = elim (split_at b':' arg) [
  | none ↦ none
  | some (name, rest) ↦
      if sys.supports_pam && (name ==ˢ codes "AUTH")
      then some (record { auth_user = 1; user = none; group = none; rest = rest })
      else elim (parse_id sys.get_user_id sys.get_user_name name) [
        | none ↦ none
        | some u ↦ elim (split_at b':' rest) [
          | none ↦ none
          | some (group, more) ↦ elim (parse_id sys.get_group_id sys.get_group_name group) [
            | none ↦ none
            | some g ↦ some (record { auth_user = 0; user = some u; group = some g; rest = more })
          ]
        ]
      ]
]

unfoldable pub first_of : Option (ℕ × Bytes) → Option ℕ
first_of none = none
first_of (some (n, s)) = some n

unfoldable pub second_of : Option (ℕ × Bytes) → Option Bytes
second_of none = none
second_of (some (n, s)) = some s

-- The working directory and the command line.
unfoldable pub app_service : Bytes → Owner → Option Service
unfolding split_at first_of second_of
app_service path o = elim (split_at b':' o.rest) [
  | none ↦ none
  | some (dir, command) ↦
      let home = dir ==ˢ codes "HOME" in
      let shell = command ==ˢ codes "SHELL" in
      if not home && not (get_or dir 0 0 == b'/')
      then none
      else if length command == 0
      then none
      else some (record {
        path = path;
        use_login = false;
        use_home_dir = home;
        auth_user = o.auth_user;
        use_default_shell = shell;
        uid = first_of o.user;
        gid = first_of o.group;
        user = second_of o.user;
        group = second_of o.group;
        cwd = if home then none else some dir;
        cmdline = if shell then none else some command;
      })
]

-- The part behind the path.
unfoldable pub parse_app : System → Bytes → Bytes → Option Service
unfolding is_ssh ssh_service login_service parse_owner app_service
parse_app sys path arg =
    if sys.has_login && (arg ==ˢ codes "LOGIN")
    then (if sys.is_root then some (login_service path) else none)
    else if is_ssh arg
    then ssh_service path arg
    else elim (parse_owner sys arg) [ none ↦ none | some o ↦ app_service path o ]

-- `initService`; `none` is fatal.
unfoldable pub init_service : System → Bytes → Option Service
unfolding skip_slashes split_at drop_slashes parse_app
init_service sys arg = elim (split_at b':' (skip_slashes arg)) [
  | none ↦ none
  | some (path, rest) ↦ parse_app sys (b'/' ∷ drop_slashes path) rest
]
