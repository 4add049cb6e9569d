-- ===== src/Authz/Controller/Same.antt =====
-- Controllers that differ only in the order of their maps.

use authlib.Prelude.{true, false, not, ◌&&◌, ◌||◌, ◌≡◌, refl, List, is_nil, any, if◌then◌else◌}
use authlib.GoMap.{holds}
use authlib.Text.Bytes.{Str, codes}
use authlib.Authz.Scope.{Resource, scope}
use authlib.Authz.Controller.{Controller, check}

-- Every question that the code asks of one controller has the answer of the other.
pub record SameController (a b : Controller) : Type 0 where
  pub found : a.found ≡ b.found
  pub scopes : (k : Str) → holds a.scopes k ≡ holds b.scopes k
  pub wildcard : (k : Str) → holds a.wildcard k ≡ holds b.wildcard k
  pub no_scopes : is_nil a.scopes ≡ is_nil b.scopes
  pub no_wildcard : is_nil a.wildcard ≡ is_nil b.wildcard

pub SameController-refl : (a : Controller) → SameController a a
SameController-refl a = record {
  found = refl;
  scopes = λ k. refl;
  wildcard = λ k. refl;
  no_scopes = refl;
  no_wildcard = refl;
}

pub check_same :
    {a b : Controller}
    → SameController a b
    → (resources : List Resource) → check a resources ≡ check b resources
unfolding check
check_same h resources = λ i.
    if not (h.found i)
    then false
    else if is_nil resources
    then true
    else if h.no_scopes i && h.no_wildcard i
    then false
    else if h.wildcard (codes "*") i
    then true
    else any (λ res. h.wildcard res.kind i || h.scopes (scope res) i) resources
