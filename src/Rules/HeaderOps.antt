-- ===== src/Rules/HeaderOps.antt =====
-- internal/rules/engine.go: `applyHeaderOps`, and that its answer is right when it says that nothing
-- was changed.
use sniffy.Common.{
  ◌≡◌, refl, ap, sym, ◌∙◌, if_elim, Bool, true, false, not, List, [], ◌∷◌, Option, none, some,
  is_nil, if◌then◌else◌,
}
use sniffy.Common.Bytes.{Text, codes}
use sniffy.Common.Dict.{insert, remove}
use sniffy.Rules.Values.{
  Conversions, Value, null, text, flag, number, integer, object, array, Object, no_fields, field,
  Items, no_items, next_item, value_at, stringify, get_str,
}
use sniffy.Rules.Headers.{canonical_header_key}

abbrev pub Fields : Type 0
Fields = List (Text × List Text)

-- The loop over `add` or `modify`: the headers, and the flag `changed`.
unfoldable pub set_each : Conversions → Object → Fields × Bool → Fields × Bool
set_each c no_fields (h, changed) = (h, changed)
set_each c (field k v m) (h, changed) =
    set_each c m (insert (canonical_header_key c k) (stringify c v ∷ []) h, true)

set_object : Conversions → Value → Fields × Bool → Fields × Bool
unfolding set_each
set_object c (object m) s = set_each c m s
set_object c null s = s
set_object c (text t) s = s
set_object c (flag b) s = s
set_object c (number n) s = s
set_object c (integer z) s = s
set_object c (array xs) s = s

unfoldable pub remove_each : Conversions → Items → Fields × Bool → Fields × Bool
remove_each c no_items (h, changed) = (h, changed)
remove_each c (next_item v xs) (h, changed) =
    remove_each c xs (remove (canonical_header_key c (stringify c v)) h, true)

remove_array : Conversions → Value → Fields × Bool → Fields × Bool
unfolding remove_each
remove_array c (array xs) s = remove_each c xs s
remove_array c null s = s
remove_array c (text t) s = s
remove_array c (flag b) s = s
remove_array c (number n) s = s
remove_array c (integer z) s = s
remove_array c (object m) s = s

unfoldable pub structured : Conversions → Value → Fields × Bool → Fields × Bool
unfolding set_object remove_array
structured c (object m) s =
    remove_array c (value_at (codes "remove") m)
      (set_object c (value_at (codes "modify") m) (set_object c (value_at (codes "add") m) s))
structured c null s = s
structured c (text t) s = s
structured c (flag b) s = s
structured c (number n) s = s
structured c (integer z) s = s
structured c (array xs) s = s

unfoldable pub flat : Conversions → Object → Fields → Fields × Bool
flat c params h =
    let name = get_str c params (codes "name") in
    if not (is_nil name)
    then (insert (canonical_header_key c name) (get_str c params (codes "value") ∷ []) h, true)
    else (h, false)

with_map : Fields × Bool → Option Fields × Bool
with_map (h, changed) = (some h, changed)

-- `applyHeaderOps`: the headers, which are edited in place, and whether something was changed.
unfoldable pub apply_header_ops : Conversions → Option Fields → Object → Text → Option Fields × Bool
unfolding with_map
apply_header_ops c none params key = (none, false)
apply_header_ops c (some h) params key =
    with_map (structured c (value_at key params) (flat c params h))

module _ (c : Conversions) where
  -- Where the flag says that nothing was changed, nothing was.
  abbrev Same : Fields × Bool → Fields × Bool → Type 0
  Same s t = t.1 ≡ false → t ≡ s

  set_each-Same : (m : Object) (s : Fields × Bool) → Same s (set_each c m s)
  unfolding set_each
  set_each-Same no_fields s q = refl
  set_each-Same (field k v m) (h, changed) q =
      let e = set_each-Same m (insert (canonical_header_key c k) (stringify c v ∷ []) h, true) q in
      absurd (cc (q, e))

  remove_each-Same : (xs : Items) (s : Fields × Bool) → Same s (remove_each c xs s)
  unfolding remove_each
  remove_each-Same no_items s q = refl
  remove_each-Same (next_item v xs) (h, changed) q =
      let e = remove_each-Same xs (remove (canonical_header_key c (stringify c v)) h, true) q in
      absurd (cc (q, e))

  Same-trans : (s t u : Fields × Bool) → Same s t → Same t u → Same s u
  Same-trans s t u st tu q = let e = tu q in e ∙ st (ap (λ (x : Fields × Bool). x.1) (sym e) ∙ q)

  set_object-Same : (v : Value) (s : Fields × Bool) → Same s (set_object c v s)
  unfolding set_object
  set_object-Same (object m) s = set_each-Same m s
  set_object-Same null s = λ q. refl
  set_object-Same (text t) s = λ q. refl
  set_object-Same (flag b) s = λ q. refl
  set_object-Same (number n) s = λ q. refl
  set_object-Same (integer z) s = λ q. refl
  set_object-Same (array xs) s = λ q. refl

  remove_array-Same : (v : Value) (s : Fields × Bool) → Same s (remove_array c v s)
  unfolding remove_array
  remove_array-Same (array xs) s = remove_each-Same xs s
  remove_array-Same null s = λ q. refl
  remove_array-Same (text t) s = λ q. refl
  remove_array-Same (flag b) s = λ q. refl
  remove_array-Same (number n) s = λ q. refl
  remove_array-Same (integer z) s = λ q. refl
  remove_array-Same (object m) s = λ q. refl

  structured-Same : (v : Value) (s : Fields × Bool) → Same s (structured c v s)
  unfolding structured
  structured-Same (object m) s =
      let s1 = set_object c (value_at (codes "add") m) s in
      let s2 = set_object c (value_at (codes "modify") m) s1 in
      Same-trans s s2 _
        (Same-trans s s1 s2 (set_object-Same (value_at (codes "add") m) s)
          (set_object-Same (value_at (codes "modify") m) s1))
        (remove_array-Same (value_at (codes "remove") m) s2)
  structured-Same null s = λ q. refl
  structured-Same (text t) s = λ q. refl
  structured-Same (flag b) s = λ q. refl
  structured-Same (number n) s = λ q. refl
  structured-Same (integer z) s = λ q. refl
  structured-Same (array xs) s = λ q. refl

  flat-Same : (params : Object) (h : Fields) → Same (h, false) (flat c params h)
  unfolding flat
  flat-Same params h =
      if_elim (λ (t : Fields × Bool). t.1 ≡ false → t ≡ (h, false))
        (not (is_nil (get_str c params (codes "name")))) _ _ (λ e q. absurd cc) λ e q. refl

  pub apply_header_ops_keeps :
      (h : Option Fields) (params : Object) (key : Text)
      → (apply_header_ops c h params key).1 ≡ false
      → (apply_header_ops c h params key).0 ≡ h
  unfolding apply_header_ops with_map
  apply_header_ops_keeps none params key q = refl
  apply_header_ops_keeps (some h) params key q =
      ap (λ (t : Fields × Bool). some t.0)
        ((Same-trans (h, false) (flat c params h)
            (structured c (value_at key params) (flat c params h)) (flat-Same params h)
            (structured-Same (value_at key params) (flat c params h)))
          q)
