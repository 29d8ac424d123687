-- ===== src/UserCss.antt =====
-- shellinabox/usercss.c: the style sheets that a user can choose, in groups.
pub mod Grouped
pub mod Accepted
use shellinabox.Base.{
  ℕ, zero, suc, ◌<◌, Bool, true, false, not, ◌&&◌, ◌||◌, Option, none, some, List, [], ◌∷◌, ◌++◌,
  Bytes, ltb, ◌==◌, if◌then◌else◌, codes, length,
}
use shellinabox.Service.{split_at}

-- `struct UserCSS`, without `next`.
pub record UserCss : Type 0 where
  pub new_group : Bool
  pub is_activated : Bool
  pub label : Bytes
  pub style : Bytes

unfoldable pub escape_label : Bytes → Bytes
escape_label [] = []
escape_label (ch ∷ s) =
    let rest = escape_label s in
    if ch == b'<'
    then codes "&lt;" ++ rest
    else if ch == b'&'
    then codes "&amp;" ++ rest
    else if ch == b'\''
    then codes "&apos;" ++ rest
    else if ch == b'"'
    then codes "&quot;" ++ rest
    else ch ∷ rest

-- `strcspn(s, ",;")`, and what stands behind it.
unfoldable pub file_name_end : Bytes → Bytes × Bytes
file_name_end [] = ([], [])
file_name_end (ch ∷ s) =
    let b = file_name_end s in if ch == b',' || ch == b';' then ([], ch ∷ s) else (ch ∷ b.0, b.1)

-- The character in front of the name of the file; none is fatal.
unfoldable pub activation : Bytes → Option (Bool × Bytes)
activation [] = none
activation (ch ∷ filename) =
    if ch == b'-'
    then some (false, filename)
    else if ch == b'+'
    then some (true, filename)
    else none

-- A group ends: with more than one member it has an active one.
unfoldable pub is_complete : Bool → ℕ → Bool
is_complete has_active_member num_members = not (not has_active_member && ltb 1 num_members)

unfoldable pub prepend : UserCss → Option (List UserCss) → Option (List UserCss)
prepend user_css none = none
prepend user_css (some rest) = some (user_css ∷ rest)

-- Behind a member. `next` is the loop for what follows.
unfoldable pub behind_member :
    (Bool → ℕ → Bool → Bytes → Option (List UserCss))
    → UserCss
    → ℕ
    → Bool
    → Bytes
    → Option (List UserCss)
unfolding is_complete prepend
behind_member next user_css num_members has_active_member [] =
    if is_complete has_active_member num_members then some (user_css ∷ []) else none
behind_member next user_css num_members has_active_member (ch ∷ arg) =
    let new = next true 1 false arg in
    let more = next false (suc num_members) has_active_member arg in
    if ch == b';'
    then (if is_complete has_active_member num_members then prepend user_css new else none)
    else prepend user_css more

-- The loop of initUserCSS, with a bound on its rounds. `read` is readStylesheet; none is fatal.
unfoldable pub read_members :
    (Bytes → Option Bytes) → ℕ → Bool → ℕ → Bool → Bytes → Option (List UserCss)
unfolding split_at escape_label file_name_end activation behind_member
read_members read zero new_group num_members has_active_member arg = none
read_members read (suc rounds) new_group num_members has_active_member arg =
    elim (split_at b':' arg) [
      | none ↦ none
      | some (label, rest) ↦
          let file = file_name_end rest in
          elim (activation file.0) [
            | none ↦ none
            | some (is_activated, filename) ↦
                if is_activated && has_active_member then none else elim (read filename) [
                  | none ↦ none
                  | some style ↦
                      behind_member (read_members read rounds)
                        (record {
                          new_group = new_group;
                          is_activated = is_activated;
                          label = escape_label label;
                          style = style;
                        })
                        num_members (is_activated || has_active_member) file.1
                ]
          ]
    ]

-- `initUserCSS`. A round takes at least a colon and a character.
unfoldable pub init_user_css : (Bytes → Option Bytes) → Bytes → Option (List UserCss)
unfolding read_members
init_user_css read arg = read_members read (suc (length arg)) true 1 false arg

-- `getUserCSSString`
unfoldable pub bool_text : Bool → Bytes
bool_text b = if b then codes "true" else codes "false"

unfoldable pub members_text : List UserCss → Bytes
unfolding bool_text
members_text [] = []
members_text (c ∷ cs) =
    let rest = members_text cs in
    codes "[ '"
    ++ (c.label
        ++ (codes "', "
            ++ (bool_text c.new_group
                ++ (codes ", "
                    ++ (bool_text c.is_activated
                        ++ (codes " ]"
                            ++ ((if length cs == 0 then [] else codes ", ") ++ rest)))))))

unfoldable pub get_user_css_string : List UserCss → Bytes
unfolding members_text
get_user_css_string cs = codes "[ " ++ (members_text cs ++ codes " ]")
