-- ===== src/Service/Sound.antt =====
-- What holds of every service that initService accepts.
use shellinabox.Base.{
  ℕ, ◌≤◌, ◌≡◌, ◌≢◌, ◌⊎◌, ◌↔◌, true, false, Option, none, some, [], Bytes, codes, get_or, All,
}
use shellinabox.Service.{Service, System, ssh_cmdline}
use shellinabox.Service.Mount.{IsMount}
use shellinabox.Service.Owners.{IsId}

abbrev pub IsDigit : ℕ → Type 0
IsDigit ch = (b'0' ≤ ch) × (ch ≤ b'9')

abbrev pub IsHostChar : ℕ → Type 0
IsHostChar ch =
    IsDigit ch
    ⊎ ((b'A' ≤ ch) × (ch ≤ b'Z'))
    ⊎ ((b'a' ≤ ch) × (ch ≤ b'z'))
    ⊎ (ch ≡ b'-')
    ⊎ (ch ≡ b'.')

-- The command line of an SSH service is the fixed one, with a host and a port of these characters;
-- either may be empty.
abbrev pub IsSshCommand : Option Bytes → Type 0
IsSshCommand cmdline =
    (host : Bytes) × (port : Bytes) × (cmdline ≡ some (ssh_cmdline port host))
    × All IsHostChar host
    × All IsDigit port

-- Who runs a service: root for LOGIN, the user and group of the description, where there is one,
-- those of who logs in, or nobody's own, for SSH.
abbrev pub HasOwner : System → Service → Type 0
HasOwner sys s =
    ((s.use_login ≡ true)
      × (s.auth_user ≡ 0)
      × (s.uid ≡ some 0)
      × (s.gid ≡ some 0)
      × (s.user ≡ some (codes "root"))
      × (s.group ≡ some (codes "root")))
    ⊎ ((u : ℕ × Bytes) × (g : ℕ × Bytes) × (s.use_login ≡ false)
        × (s.auth_user ≡ 0)
        × (s.uid ≡ some u.0)
        × (s.gid ≡ some g.0)
        × (s.user ≡ some u.1)
        × (s.group ≡ some g.1)
        × IsId sys.get_user_id sys.get_user_name u
        × IsId sys.get_group_id sys.get_group_name g)
    ⊎ ((s.use_login ≡ false)
        × (s.auth_user ≡ 1)
        × (s.uid ≡ none)
        × (s.gid ≡ none)
        × (s.user ≡ none)
        × (s.group ≡ none))
    ⊎ ((s.use_login ≡ false)
        × (s.auth_user ≡ 2)
        × (s.uid ≡ none)
        × (s.gid ≡ none)
        × (s.user ≡ none)
        × (s.group ≡ none)
        × IsSshCommand s.cmdline)

abbrev pub IsAbsolute : Option Bytes → Type 0
IsAbsolute none = Unit
IsAbsolute (some dir) = get_or dir 0 0 ≡ b'/'

abbrev pub IsCommand : Option Bytes → Type 0
IsCommand none = Unit
IsCommand (some command) = command ≢ []

abbrev pub IsService : System → Service → Type 0
IsService sys s =
    IsMount s.path
    × HasOwner sys s
    × IsAbsolute s.cwd
    × ((s.cwd ≡ none) ↔ (s.use_home_dir ≡ true))
    × IsCommand s.cmdline
    × ((s.cmdline ≡ none) ↔ (s.use_default_shell ≡ true))
