-- ===== src/Service/Describe.antt =====
-- A description of a service is read as it is written.
use shellinabox.Base.{
  ℕ, suc, ◌≡◌, ◌≢◌, refl, ap, ◌∙◌, Bool, true, false, ◌&&◌, Option, none, some, [], ◌∷◌, ◌++◌,
  Bytes, ◌==◌, ◌==ˢ◌, codes, get_or, length, take, arith, inl, inr, Bool-cases, All, ==ˢ_iff,
  ==ˢ_refl,
}
use shellinabox.ExternalFile.Hidden.{skip_slashes-kept}
use shellinabox.Service.{
  System, split_at, drop_slashes, parse_id, is_ssh, Owner, first_of, second_of, parse_owner,
  app_service, parse_app, init_service,
}

-- A text up to its colon, and what stands behind it.
abbrev pub field : Bytes → Bytes → Bytes
field s rest = s ++ b':' ∷ rest

abbrev cwd_text : Option Bytes → Bytes
cwd_text none = codes "HOME"
cwd_text (some dir) = dir

abbrev command_text : Option Bytes → Bytes
command_text none = codes "SHELL"
command_text (some command) = command

unfoldable pub is_none : Option Bytes → Bool
is_none none = true
is_none (some s) = false

-- The description of an application: path:user:group:cwd:command.
unfoldable pub describe : Bytes → Bytes → Bytes → Option Bytes → Option Bytes → Bytes
describe path user group cwd command =
    field path (field user (field group (field (cwd_text cwd) (command_text command))))

abbrev pub NoColon : Bytes → Type 0
NoColon s = All (λ c. c ≢ b':') s

abbrev IsDirectory : Option Bytes → Type 0
IsDirectory none = Unit
IsDirectory (some dir) = (get_or dir 0 0 ≡ b'/') × NoColon dir

abbrev IsProgram : Option Bytes → Type 0
IsProgram none = Unit
IsProgram (some command) = (command ≢ []) × (command ≢ codes "SHELL")

pub split_at-field : (s rest : Bytes) → NoColon s → split_at b':' (field s rest) ≡ some (s, rest)
unfolding split_at
split_at-field [] rest h = refl
split_at-field (c ∷ s) rest h = ground (arith, h.0, split_at-field s rest h.1)

drop_slashes-kept : (s : Bytes) → ((front : Bytes) → s ≢ front ++ b'/' ∷ []) → drop_slashes s ≡ s
unfolding drop_slashes
drop_slashes-kept [] h = refl
drop_slashes-kept (c ∷ []) h = ground (arith, h [])
drop_slashes-kept (c ∷ d ∷ s) h =
    ground (arith, drop_slashes-kept (d ∷ s) (λ front e. h (c ∷ front) (ap (λ s. c ∷ s) e)))

-- A text with a colon is not one without.
field-differs : (s rest word : Bytes) → NoColon word → (field s rest ==ˢ word) ≡ false
unfolding ◌==ˢ◌
field-differs [] rest [] h = refl
field-differs [] rest (d ∷ word) h = ground (arith, h)
field-differs (c ∷ s) rest [] h = refl
field-differs (c ∷ s) rest (d ∷ word) h = ground (arith, field-differs s rest word h.1)

prefix-differs :
    (s rest word : Bytes)
    → NoColon s
    → NoColon word
    → s ≢ word
    → (take (suc (length word)) (field s rest) ==ˢ (word ++ b':' ∷ [])) ≡ false
unfolding ◌==ˢ◌
prefix-differs [] rest [] h k n = absurd (n refl)
prefix-differs [] rest (d ∷ word) h k n = ground (arith, k)
prefix-differs (c ∷ s) rest [] h k n = ground (arith, h)
prefix-differs (c ∷ s) rest (d ∷ word) h k n = elim (Bool-cases (c == d)) [
  | inl e ↦ rw e (prefix-differs s rest word h.1 k.1 (λ f. n (ground (arith, e, f))))
  | inr e ↦ rw e refl
]

is_ssh-field : (s rest : Bytes) → NoColon s → s ≢ codes "SSH" → is_ssh (field s rest) ≡ false
unfolding is_ssh
is_ssh-field s rest h k =
    rw (field-differs s rest (codes "SSH") (omega arith))
      (prefix-differs s rest (codes "SSH") h (omega arith) k)

==ˢ-differs : (a b : Bytes) → a ≢ b → (a ==ˢ b) ≡ false
==ˢ-differs a b h = elim (Bool-cases (a ==ˢ b)) [
  | inl e ↦ absurd (h ((==ˢ_iff a b).0 e))
  | inr e ↦ e
]

not_home : (dir : Bytes) → get_or dir 0 0 ≡ b'/' → (dir ==ˢ codes "HOME") ≡ false
not_home [] h = absurd (ground (arith, h))
not_home (c ∷ dir) h = ==ˢ-differs (c ∷ dir) (codes "HOME") (λ e. ground (arith, h, e))

cwd_text-NoColon : (cwd : Option Bytes) → IsDirectory cwd → NoColon (cwd_text cwd)
cwd_text-NoColon none h = omega arith
cwd_text-NoColon (some dir) h = h.1

is_home : (codes "HOME" ==ˢ codes "HOME") ≡ true
is_home = ==ˢ_refl (codes "HOME")

is_shell : (codes "SHELL" ==ˢ codes "SHELL") ≡ true
is_shell = ==ˢ_refl (codes "SHELL")

not_empty : (s : Bytes) → s ≢ [] → (length s == 0) ≡ false
not_empty [] h = absurd (h refl)
not_empty (c ∷ s) h = ground arith

app_service-text :
    (path : Bytes) (o : Owner) (cwd command : Option Bytes)
    → split_at b':' o.rest ≡ some (cwd_text cwd, command_text command)
    → IsDirectory cwd
    → IsProgram command
    → app_service path o
      ≡ some (record {
        path = path;
        use_login = false;
        use_home_dir = is_none cwd;
        auth_user = o.auth_user;
        use_default_shell = is_none command;
        uid = first_of o.user;
        gid = first_of o.group;
        user = second_of o.user;
        group = second_of o.group;
        cwd = cwd;
        cmdline = command;
      })
unfolding app_service is_none
app_service-text path o none none e d p = rw (app_service, e) (rw (is_home, is_shell) refl)
app_service-text path o none (some command) e d p =
    rw (app_service, e)
      (rw (is_home, ==ˢ-differs command (codes "SHELL") p.1, not_empty command p.0) refl)
app_service-text path o (some dir) none e d p =
    rw (app_service, e) (rw (not_home dir d.0, d.0, is_shell) refl)
app_service-text path o (some dir) (some command) e d p =
    rw (app_service, e)
      (rw (not_home dir d.0, d.0, ==ˢ-differs command (codes "SHELL") p.1, not_empty command p.0)
        refl)

-- A user and a group, as the two databases know them.
module _ (sys : System) (user group : Bytes) (uid gid : ℕ) (user_name group_name : Bytes)
    (one : NoColon user) (two : NoColon group)
    (no_auth : (sys.supports_pam && (user ==ˢ codes "AUTH")) ≡ false)
    (known : parse_id sys.get_user_id sys.get_user_name user ≡ some (uid, user_name))
    (known_group : parse_id sys.get_group_id sys.get_group_name group
      ≡ some (gid, group_name)) where
  parse_owner-field :
      (rest : Bytes)
      → parse_owner sys (field user (field group rest))
        ≡ some (record {
          auth_user = 0;
          user = some (uid, user_name);
          group = some (gid, group_name);
          rest = rest;
        })
  unfolding parse_owner
  parse_owner-field rest =
      rw (parse_owner, split_at-field user (field group rest) one)
        (rw (no_auth, known, split_at-field group rest two, known_group) refl)

parse_app-field :
    (sys : System) (path user rest : Bytes) (o : Owner)
    → NoColon user
    → user ≢ codes "SSH"
    → parse_owner sys (field user rest) ≡ some o
    → parse_app sys path (field user rest) ≡ app_service path o
unfolding parse_app
parse_app-field sys path user rest o h k e =
    ground
      (arith, field-differs user rest (codes "LOGIN") (omega arith), is_ssh-field user rest h k, e)

field-head :
    (path rest : Bytes) → get_or path 0 0 ≢ b'/' → (get_or (field path rest) 0 0 == b'/') ≡ false
field-head [] rest h = refl
field-head (c ∷ path) rest h = ground (arith, h)

init_service-field :
    (sys : System) (path rest : Bytes)
    → get_or path 0 0 ≢ b'/'
    → ((front : Bytes) → path ≢ front ++ b'/' ∷ [])
    → NoColon path
    → init_service sys (field path rest) ≡ parse_app sys (b'/' ∷ path) rest
unfolding init_service
init_service-field sys path rest a b c =
    rw (init_service, skip_slashes-kept (field path rest) (field-head path rest a))
      (rw (split_at-field path rest c)
        (ap (λ p. parse_app sys (b'/' ∷ p) rest) (drop_slashes-kept path b)))

-- From a description path:user:group:cwd:command, of a path without slashes at its ends, of a
-- user that is neither SSH nor, with PAM, AUTH, and is known as the group is, none of these or
-- of the directory with a colon, and of a directory that is absolute or HOME and a command that
-- is not empty, initService reads exactly these fields.
pub init_service-describe :
    (sys : System) (path user group : Bytes) (cwd command : Option Bytes) (uid gid : ℕ)
    (user_name group_name : Bytes)
    → get_or path 0 0 ≢ b'/'
    → ((front : Bytes) → path ≢ front ++ b'/' ∷ [])
    → NoColon path
    → NoColon user
    → NoColon group
    → user ≢ codes "SSH"
    → (sys.supports_pam && (user ==ˢ codes "AUTH")) ≡ false
    → parse_id sys.get_user_id sys.get_user_name user ≡ some (uid, user_name)
    → parse_id sys.get_group_id sys.get_group_name group ≡ some (gid, group_name)
    → IsDirectory cwd
    → IsProgram command
    → init_service sys (describe path user group cwd command)
      ≡ some (record {
        path = b'/' ∷ path;
        use_login = false;
        use_home_dir = is_none cwd;
        auth_user = 0;
        use_default_shell = is_none command;
        uid = some uid;
        gid = some gid;
        user = some user_name;
        group = some group_name;
        cwd = cwd;
        cmdline = command;
      })
unfolding describe first_of second_of
init_service-describe sys path user group cwd command uid gid user_name group_name a b c d e f g h k
      l m =
    let tail = field (cwd_text cwd) (command_text command) in
    init_service-field sys path (field user (field group tail)) a b c
    ∙ parse_app-field sys (b'/' ∷ path) user (field group tail) _ d f
        (parse_owner-field sys user group uid gid user_name group_name d e g h k tail)
    ∙ app_service-text (b'/' ∷ path) _ cwd command
        (split_at-field (cwd_text cwd) (command_text command) (cwd_text-NoColon cwd l)) l m
