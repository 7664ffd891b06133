-- ===== src/Requests/Routes/Numbers.antt =====
-- The routes and the parser of their numbers fit together. The router itself, gorilla's mux, is a
-- parameter.
use Prim.Native.String.{String}
use block_dn.Common.{
  ◌≡◌, refl, ◌⊎◌, inl, inr, Bool, true, false, not, ◌&&◌, List, [], ◌∷◌, Option, some,
}
use block_dn.Common.Int.{ℤ}
use block_dn.Common.Effect.{ok}
use block_dn.Requests.{Request, Var, codes, parse_request_param_int64}
use block_dn.Requests.Params.{AllDigits, InRange, parameter-InRange}
use block_dn.Requests.Routes.{
  Endpoint, Part, lit, digits_of, hex_of, any_of, Template, create_router,
}

-- The variables whose values are numbers.
abbrev pub is_numeric : Var → Bool
is_numeric Var.height = true
is_numeric Var.dust = true
is_numeric Var.blocks = true
is_numeric Var.vout = true
is_numeric _ = false

-- A value that a part of a template takes. Of the other two classes nothing is used.
abbrev pub Fits : Part → (Var → String) → Type 0
Fits (digits_of v) vars = AllDigits (codes (vars v))
Fits _ vars = Unit

abbrev pub FitsAll : Template → (Var → String) → Type 0
FitsAll [] vars = Unit
FitsAll (part ∷ parts) vars = Fits part vars × FitsAll parts vars

abbrev pub Names : Part → Var → Type 0
Names (lit path) v = ⊥
Names (digits_of u) v = u ≡ v
Names (hex_of u) v = u ≡ v
Names (any_of u) v = u ≡ v

abbrev pub NamesIn : Template → Var → Type 0
NamesIn [] v = ⊥
NamesIn (part ∷ parts) v = Names part v ⊎ NamesIn parts v

-- A route of the table that gave the endpoint and the variables: their values fit the template, and
-- a variable that it does not name is empty.
pub record IsRoute (vars : Var → String) (endpoint : Endpoint) (route : Template × Endpoint)
    : Type 0 where
  pub fits : FitsAll route.0 vars
  pub named : (v : Var) → NamesIn route.0 v ⊎ (codes (vars v) ≡ [])
  pub to : route.1 ≡ endpoint

abbrev pub OneOf : (Template × Endpoint → Type 0) → List (Template × Endpoint) → Type 0
OneOf P [] = ⊥
OneOf P (route ∷ routes) = P route ⊎ OneOf P routes

-- `mux.Router`: the endpoint and the variables of a path, if a route matches.
abbrev pub Router : Type 0
Router = List (Template × Endpoint) → String → Option (Endpoint × (Var → String))

-- What mux documents: it answers with a route that it was given.
pub record RouterLaws (router : Router) : Type 0 where
  pub matched :
      (table : List (Template × Endpoint)) (path : String) (endpoint : Endpoint)
      (vars : Var → String)
      → router table path ≡ some (endpoint, vars)
      → OneOf (IsRoute vars endpoint) table

-- No number stands where other characters are allowed.
abbrev part_is_safe : Part → Bool
part_is_safe (lit path) = true
part_is_safe (digits_of v) = true
part_is_safe (hex_of v) = not (is_numeric v)
part_is_safe (any_of v) = not (is_numeric v)

abbrev is_safe : Template → Bool
is_safe [] = true
is_safe (part ∷ parts) = part_is_safe part && is_safe parts

abbrev all_safe : List (Template × Endpoint) → Bool
all_safe [] = true
all_safe (route ∷ routes) = is_safe route.0 && all_safe routes

create_router-safe : all_safe create_router ≡ true
unfolding create_router
create_router-safe = refl

and_true : (a b : Bool) → (a && b) ≡ true → (a ≡ true) × (b ≡ true)
and_true true b e = (refl, e)
and_true false b e = cc

module _ (vars : Var → String) (v : Var) (numeric : is_numeric v ≡ true) where
  part_digits :
      (part : Part)
      → part_is_safe part ≡ true
      → Fits part vars
      → Names part v
      → AllDigits (codes (vars v))
  part_digits (lit path) safe fits named = absurd named
  part_digits (digits_of u) safe fits named = rw (← named) fits
  part_digits (hex_of u) safe fits named = cc (rw (named, numeric) at safe)
  part_digits (any_of u) safe fits named = cc (rw (named, numeric) at safe)

  template_digits :
      (t : Template) → is_safe t ≡ true → FitsAll t vars → NamesIn t v → AllDigits (codes (vars v))
  template_digits [] safe fits named = absurd named
  template_digits (part ∷ parts) safe (here, rest) (inl named) =
      part_digits part (and_true _ _ safe).0 here named
  template_digits (part ∷ parts) safe (here, rest) (inr named) =
      template_digits parts (and_true (part_is_safe part) _ safe).1 rest named

  table_digits :
      (endpoint : Endpoint) (table : List (Template × Endpoint))
      → all_safe table ≡ true
      → OneOf (IsRoute vars endpoint) table
      → AllDigits (codes (vars v))
  table_digits endpoint [] safe found = absurd found
  table_digits endpoint (route ∷ routes) safe (inl is) = elim (is.named v) [
    | inl named ↦ template_digits route.0 (and_true (is_safe route.0) _ safe).0 is.fits named
    | inr empty ↦ rw empty tt
  ]
  table_digits endpoint (route ∷ routes) safe (inr found) =
      table_digits endpoint routes (and_true (is_safe route.0) _ safe).1 found

-- Behind the routes of `createRouter`, whichever of them a path takes, each of the numbers that the
-- handlers parse from the path, heights, dust limits, block counts and output indices, is from 0 up
-- to below 2^63, if the parser takes it at all.
pub create_router-InRange :
    (router : Router)
    → RouterLaws router
    → (path : String) (endpoint : Endpoint) (r : Request)
    → router create_router path ≡ some (endpoint, r.var)
    → (v : Var) (n : ℤ) → is_numeric v ≡ true
    → parse_request_param_int64 r v ≡ ok n
    → InRange n
create_router-InRange router laws path endpoint r found v n numeric parsed =
    parameter-InRange r v n
      (table_digits r.var v numeric endpoint create_router create_router-safe
        (laws.matched create_router path endpoint r.var found))
      parsed
