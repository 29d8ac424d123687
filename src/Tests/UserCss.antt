-- ===== src/Tests/UserCss.antt =====
-- A few style sheets.
use shellinabox.Base.{
  ◌≡◌, ◌↔◌, refl, true, false, Option, none, some, [], ◌∷◌, Bytes, codes, arith, map, Leaves,
}
use shellinabox.UserCss.{escape_label, init_user_css, get_user_css_string}
use shellinabox.UserCss.Grouped.{AreGroups}
use shellinabox.UserCss.Accepted.{Member, sheet, members_arg, init_user_css_lem}

abbrev read : Bytes → Option Bytes
read name = some name

abbrev white : Member
white = record {
  new_group = true;
  is_activated = false;
  label = codes "White & \"";
  filename = codes "w.css";
  style = codes "w.css";
}

abbrev black : Member
black = record {
  new_group = false;
  is_activated = true;
  label = codes "Black";
  filename = codes "b.css";
  style = codes "b.css";
}

members_arg-two : members_arg white (black ∷ []) ≡ codes "White & \":-w.css,Black:+b.css"
unfolding members_arg
members_arg-two = refl

get_user_css_string-two :
    get_user_css_string (map sheet (white ∷ black ∷ []))
    ≡ codes "[ [ 'White &amp; &quot;', true, false ], [ 'Black', false, true ] ]"
unfolding get_user_css_string escape_label
get_user_css_string-two = refl

init_user_css-two :
    init_user_css read (codes "A:-a,B:+b;C:-c")
    ≡ some (
        record { new_group = true; is_activated = false; label = codes "A"; style = codes "a" }
        ∷ record { new_group = false; is_activated = true; label = codes "B"; style = codes "b" }
        ∷ record { new_group = true; is_activated = false; label = codes "C"; style = codes "c" }
        ∷ [])
unfolding init_user_css
init_user_css-two = refl

init_user_css-none : init_user_css read (codes "A:-a,B:-b") ≡ none
unfolding init_user_css
init_user_css-none = refl

init_user_css_lem_example :
    Leaves AreGroups (init_user_css read (codes "A:-a,B:+b;C:-c"))
    × ((init_user_css read (members_arg white (black ∷ [])) ≡ some (map sheet (white ∷ black ∷ [])))
        ↔ AreGroups (map sheet (white ∷ black ∷ [])))
init_user_css_lem_example =
    init_user_css_lem read (codes "A:-a,B:+b;C:-c") white (black ∷ [])
      ((omega arith, omega arith, refl), ((omega arith, omega arith, refl), tt))
