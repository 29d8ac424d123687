-- ===== src/Tests/Service.antt =====
-- Descriptions of services.
use shellinabox.Base.{
  ℕ, ◌≡◌, ◌≢◌, ◌==◌, ◌==ˢ◌, if◌then◌else◌, refl, true, false, Option, none, some, [], ◌∷◌, ◌++◌,
  Bytes, codes, arith,
}
use shellinabox.Service.{System, parse_id, ssh_target, init_service}
use shellinabox.Service.Describe.{describe, is_none, init_service-describe}

-- A system with the user and group `www`.
abbrev known : Bytes → Option ℕ
known name = if name ==ˢ codes "www" then some 33 else none

abbrev name_of : ℕ → Bytes
name_of id = if id == 33 then codes "www" else codes "root"

abbrev system : System
system = record {
  has_login = true;
  is_root = true;
  supports_pam = true;
  get_user_id = known;
  get_user_name = name_of;
  get_group_id = known;
  get_group_name = name_of;
}

-- A user that is left out is the one with the number 0.
parse_id-empty : parse_id known name_of [] ≡ some (0, codes "root")
unfolding parse_id
parse_id-empty = refl

parse_id-number : parse_id known name_of (codes " 33") ≡ some (33, codes "www")
unfolding parse_id
parse_id-number = refl

-- A port may be left out behind its colon.
ssh_target-no_port : ssh_target (codes "SSH:example.com:") ≡ (codes "example.com", [])
unfolding ssh_target
ssh_target-no_port = refl

-- A host that would be an option of ssh.
init_service-host : init_service system (codes "/:SSH:a -oProxyCommand=x") ≡ none
unfolding init_service ◌==ˢ◌
init_service-host = refl

no_slash : (front : Bytes) → codes "sh" ≢ front ++ b'/' ∷ []
no_slash [] e = ground (arith, e)
no_slash (a ∷ []) e = ground (arith, e)
no_slash (a ∷ b ∷ []) e = ground (arith, e)
no_slash (a ∷ b ∷ c ∷ front) e = ground (arith, e)

init_service-describe_example :
    init_service system
      (describe (codes "sh") (codes "www") (codes "33") none (some (codes "/bin/sh")))
    ≡ some (record {
      path = b'/' ∷ codes "sh";
      use_login = false;
      use_home_dir = is_none none;
      auth_user = 0;
      use_default_shell = is_none (some (codes "/bin/sh"));
      uid = some 33;
      gid = some 33;
      user = some (codes "www");
      group = some (codes "www");
      cwd = none;
      cmdline = some (codes "/bin/sh");
    })
unfolding parse_id ◌==ˢ◌
init_service-describe_example =
    init_service-describe system (codes "sh") (codes "www") (codes "33") none
      (some (codes "/bin/sh")) 33 33 (codes "www") (codes "www") (omega arith) no_slash
      (omega arith) (omega arith) (omega arith) (λ e. ground (arith, e)) refl refl refl tt
      ((λ e. ground (arith, e)), (λ e. ground (arith, e)))
