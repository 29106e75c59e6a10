-- ===== src/Services/Watch/Following.antt =====
-- A view that takes the changes in their order follows the manager's map of units.
use lumio_os.Prelude.{
  String, Option, none, some, List, [], ◌∷◌, ◌++◌, ◌≡◌, refl, ap, ◌∙◌, str_eq, eq_iff,
  if◌then◌else◌, string_eq, arith,
}
use lumio_os.Prelude.Map.{Map, lookup, insert, lookup-insert}
use lumio_os.Services.Units.{ServiceUnit, differing, diff_units, index_onto, index_units}
use lumio_os.Services.Watch.{fill}
use lumio_os.Services.Watch.Client.{
  known_or_fallback, View, catch_up, catch_up-append, Fills, shown,
}

unfoldable pub find_unit : String → List ServiceUnit → Option ServiceUnit
find_unit n [] = none
find_unit n (u ∷ us) = if str_eq u.name n then some u else find_unit n us

abbrev pub or_else : Option ServiceUnit → Option ServiceUnit → Option ServiceUnit
or_else (some u) _ = some u
or_else none o = o

-- Every unit is under its own name.
abbrev pub Named : Map String ServiceUnit → Type 0
Named units = (n : String) (u : ServiceUnit) → lookup n units ≡ some u → u.name ≡ n

-- A listing has every unit once, and every unit that is known; it empties no field, and a unit that is
-- new has every field but its description.
abbrev pub Complete : Map String ServiceUnit → List ServiceUnit → Type 0
Complete prev [] = Unit
Complete prev (u ∷ us) =
    Fills (known_or_fallback u.name (lookup u.name prev)) u
    × (find_unit u.name us ≡ none)
    × Complete prev us

abbrev pub Covers : Map String ServiceUnit → List ServiceUnit → Type 0
Covers prev us = (n : String) → find_unit n us ≡ none → lookup n prev ≡ none

differing-append :
    (was : Option ServiceUnit) (u : ServiceUnit) (rest : List ServiceUnit)
    → differing was u rest ≡ differing was u [] ++ rest
differing-append none u rest = refl
differing-append (some p) u rest = ground arith

-- What the published differences make of a view.
catch_up-diff_units :
    (prev : Map String ServiceUnit) (us : List ServiceUnit) (view : View)
    → Named prev
    → Complete prev us
    → ((n : String) (v : ServiceUnit) → find_unit n us ≡ some v → lookup n view ≡ lookup n prev)
    → (n : String)
    → lookup n (catch_up (diff_units prev us) view) ≡ or_else (find_unit n us) (lookup n view)
unfolding diff_units find_unit catch_up
catch_up-diff_units prev [] view named c agree n = refl
catch_up-diff_units prev (u ∷ us) view named c agree n =
    let was = lookup u.name prev in
    let view' = catch_up (differing was u []) view in
    let one : (k : String) → lookup k view' ≡ (if str_eq u.name k then some u else lookup k view) =
      λ k.
        shown u was view k (λ p e. named u.name p e) c.0
          (agree u.name u (ground (arith, eq_iff u.name u.name))) in
    let rest =
      catch_up-diff_units prev us view' named c.2
        (λ k v e. ground (arith, one k, c.1, eq_iff u.name k, agree k v)) n in
    rw (differing-append was u (diff_units prev us)) (
      rw (catch_up-append (differing was u []) (diff_units prev us) view)
        (rest ∙ ground (arith, one n, c.1, eq_iff u.name n)))

lookup-index_onto :
    (prev out : Map String ServiceUnit) (us : List ServiceUnit) (n : String)
    → Complete prev us
    → lookup n (index_onto out us) ≡ or_else (find_unit n us) (lookup n out)
unfolding index_onto find_unit
lookup-index_onto prev out [] n c = refl
lookup-index_onto prev out (u ∷ us) n c =
    lookup-index_onto prev (insert u.name u out) us n c.2
    ∙ ground (arith, lookup-insert u.name n u out, c.1, eq_iff u.name n)

find_unit-name :
    (n : String) (us : List ServiceUnit) (u : ServiceUnit) → find_unit n us ≡ some u → u.name ≡ n
unfolding find_unit
find_unit-name n [] u h = absurd (cc h)
find_unit-name n (v ∷ us) u h = ground (arith, eq_iff v.name n, find_unit-name n us u)

module _ (prev : Map String ServiceUnit) (us : List ServiceUnit) (complete : Complete prev us) where
  lookup-index_units : (n : String) → lookup n (index_units us) ≡ find_unit n us
  unfolding index_units lookup
  lookup-index_units n = lookup-index_onto prev [] us n complete ∙ ground arith

  pub index_units-Named : Named (index_units us)
  index_units-Named n u h = find_unit-name n us u (ground (arith, lookup-index_units n))

  -- After a listing, the view that has caught up is the listing.
  pub listed :
      (view : View) (named : Named prev) (covers : Covers prev us)
      → ((n : String) → lookup n view ≡ lookup n prev)
      → (n : String) → lookup n (catch_up (diff_units prev us) view) ≡ lookup n (index_units us)
  listed view named covers agree n =
      catch_up-diff_units prev us view named complete (λ k v e. agree k) n
      ∙ ground (arith, lookup-index_units n, agree n, covers n)

-- A signal fills fields, and empties none.
fill-Fills : (p patch : ServiceUnit) → Fills p (fill p patch)
fill-Fills p patch = record {
  description = λ h. ground (arith, eq_iff patch.description "");
  load_state = λ h. ground (arith, eq_iff patch.load_state "");
  active_state = λ h. ground (arith, eq_iff patch.active_state "");
  sub_state = λ h. ground (arith, eq_iff patch.sub_state "");
  enabled_state = λ h. h;
}

-- After a signal for a unit that is known, the view that has caught up has the unit's new state.
pub patched :
    (units : Map String ServiceUnit) (view : View) (name : String) (p patch : ServiceUnit)
    → Named units
    → lookup name units ≡ some p
    → ((n : String) → lookup n view ≡ lookup n units)
    → (n : String)
    → lookup n (catch_up (diff_units ((name, p) ∷ []) (fill p patch ∷ [])) view)
      ≡ lookup n (insert name (fill p patch) units)
unfolding diff_units lookup
patched units view name p patch named known agree n =
    let own = named name p known in
    let was : lookup (fill p patch).name ((name, p) ∷ []) ≡ some p =
      ground (arith, eq_iff name p.name) in
    rw was (
      shown (fill p patch) (some p) view n (λ q e. ground arith) (fill-Fills p patch)
        (agree p.name ∙ (ap (λ k. lookup k units) own ∙ known))
      ∙ ground (arith, lookup-insert name n (fill p patch) units, agree n, own))
