-- ===== src/Orchestrator/Resources.antt =====
-- The resources that a Run needs (lib/services/run_orchestrator.py), told by what names them.
use Prim.Native.String.{◌++◌ as text_append}
use wifi_validation_framewor.Prelude.{
  String, ◌≡◌, refl, sym, ◌∙◌, ap, Bool, true, false, ◌||◌, Option, none, some, List, [], ◌∷◌, ◌++◌,
  map, ◌is◌, if◌then◌else◌, Result, ok, raised, ok-eq, arith, Bool-cases, inl, inr, contains,
  distinct, strip, is_blank, All, is-sym,
}
use wifi_validation_framewor.Domain.Json.{Json, null, bool, int, float, str, arr, obj, Fields}
use wifi_validation_framewor.Locks.{LockError, validate_identity}
use wifi_validation_framewor.Locks.Requests.{join_ids, validate_all}
use wifi_validation_framewor.Locks.AllOrNone.{reverse_onto}
use wifi_validation_framewor.Orchestrator.{
  PrepareRequest, get, is_truthy, or_else, unless_none, named_if, resources,
}

-- The first value that counts as given.
abbrev pub first_given : List Json → Option Json
first_given [] = none
first_given (j ∷ rest) = if is_truthy j then some j else first_given rest

-- The values that may name the device: that of the device's identity, null apart, else that of the
-- configuration.
abbrev pub device_values : Json → Json → List Json
device_values null configured = configured ∷ []
device_values identified configured = identified ∷ []

-- The name of a lock, without the spaces around it.
abbrev pub is_lock_of : (Json → String) → String → Option Json → String → Bool
is_lock_of str_of prefix none name = false
is_lock_of str_of prefix (some j) name = strip (text_append prefix (str_of j)) is name

-- A lock that the Run needs: of its laboratory, of its device, or of its namespace.
abbrev pub is_needed : PrepareRequest → Fields → String → Bool
is_needed q values name =
    (strip (text_append "lab:" q.request.lab_id) is name)
    || (is_lock_of q.str_of "device:"
          (first_given (device_values (get "device_id" q.device_identity) (get "device_id" values)))
          name
        || is_lock_of q.str_of "namespace:"
            (first_given (
              get "namespace_id" q.device_identity
              ∷ get "network_namespace" q.device_identity
              ∷ get "namespace_id" values
              ∷ []))
            name)

named_if-one :
    (str_of : Json → String) (prefix : String) (j : Json) (name : String)
    → contains (map strip (named_if str_of prefix j)) name
      ≡ is_lock_of str_of prefix (first_given (j ∷ [])) name
named_if-one str_of prefix j name = elim (Bool-cases (is_truthy j)) [
  | inl e ↦ rw e (ground arith)
  | inr e ↦ rw e
]

device-named :
    (str_of : Json → String) (identified configured : Json) (name : String)
    → contains (map strip (named_if str_of "device:" (unless_none identified configured))) name
      ≡ is_lock_of str_of "device:" (first_given (device_values identified configured)) name
device-named str_of null configured name = named_if-one str_of "device:" configured name
device-named str_of (bool b) configured name = named_if-one str_of "device:" (bool b) name
device-named str_of (int n) configured name = named_if-one str_of "device:" (int n) name
device-named str_of (float x) configured name = named_if-one str_of "device:" (float x) name
device-named str_of (str t) configured name = named_if-one str_of "device:" (str t) name
device-named str_of (arr xs) configured name = named_if-one str_of "device:" (arr xs) name
device-named str_of (obj fs) configured name = named_if-one str_of "device:" (obj fs) name

namespace-named :
    (str_of : Json → String) (a b c : Json) (name : String)
    → contains (map strip (named_if str_of "namespace:" (or_else a (or_else b c)))) name
      ≡ is_lock_of str_of "namespace:" (first_given (a ∷ b ∷ c ∷ [])) name
namespace-named str_of a b c name =
    named_if-one str_of "namespace:" (or_else a (or_else b c)) name
    ∙ ap (λ o. is_lock_of str_of "namespace:" o name) (first a b c)
  where
    first :
        (a b c : Json) → first_given (or_else a (or_else b c) ∷ []) ≡ first_given (a ∷ b ∷ c ∷ [])
    first a b c = elim (Bool-cases (is_truthy a)) [
      | inl e ↦ rw (e, e)
      | inr e ↦ elim (Bool-cases (is_truthy b)) [ inl f ↦ rw (e, f, f) | inr f ↦ rw (e, f) ]
    ]

contains-stripped :
    (xs ys : List String) (name : String)
    → contains (map strip (xs ++ ys)) name
      ≡ (contains (map strip xs) name || contains (map strip ys) name)
contains-stripped [] ys name = refl
contains-stripped (x ∷ xs) ys name = ground (arith, contains-stripped xs ys name)

pub resources-is_needed :
    (q : PrepareRequest) (values : Fields) (name : String)
    → contains (map strip (resources q values)) name ≡ is_needed q values name
unfolding resources
resources-is_needed q values name =
    let device =
      device-named q.str_of (get "device_id" q.device_identity) (get "device_id" values) name in
    let space =
      namespace-named q.str_of (get "namespace_id" q.device_identity)
        (get "network_namespace" q.device_identity) (get "namespace_id" values) name in
    ap (λ b. (strip (text_append "lab:" q.request.lab_id) is name) || b)
      (contains-stripped _ _ name
        ∙ ap
            (λ b.
              b
              || contains
                  (map strip (
                    named_if q.str_of "namespace:" (
                      or_else (get "namespace_id" q.device_identity) (
                        or_else (get "network_namespace" q.device_identity)
                          (get "namespace_id" values)))))
                  name)
            device
        ∙ ap
            (λ b.
              is_lock_of q.str_of "device:"
                (first_given
                  (device_values (get "device_id" q.device_identity) (get "device_id" values)))
                name
              || b)
            space)

contains-reverse_onto :
    (xs ys : List String) (name : String)
    → contains (reverse_onto xs ys) name ≡ (contains xs name || contains ys name)
contains-reverse_onto [] ys name = refl
contains-reverse_onto (x ∷ xs) ys name = contains-reverse_onto xs (x ∷ ys) name ∙ ground arith

pub contains-reversed :
    (xs : List String) (name : String) → contains (reverse_onto xs []) name ≡ contains xs name
contains-reversed xs name = contains-reverse_onto xs [] name ∙ ground arith

distinct-reverse_onto :
    (xs ys : List String)
    → distinct xs ≡ true
    → distinct ys ≡ true
    → All (λ x. contains ys x ≡ false) xs
    → distinct (reverse_onto xs ys) ≡ true
distinct-reverse_onto [] ys d e a = e
distinct-reverse_onto (x ∷ xs) ys d e a =
    distinct-reverse_onto xs (x ∷ ys) (ground arith) (ground (arith, a.0))
      (apart xs (ground arith) a.1)
  where
    apart :
        (zs : List String)
        → contains zs x ≡ false
        → All (λ z. contains ys z ≡ false) zs
        → All (λ z. contains (x ∷ ys) z ≡ false) zs
    apart [] h b = tt
    apart (z ∷ zs) h b =
        (ground (arith, is-sym z x (ground arith), b.0), apart zs (ground arith) b.1)

pub distinct-reversed :
    (xs : List String) → distinct xs ≡ true → distinct (reverse_onto xs []) ≡ true
distinct-reversed xs d = distinct-reverse_onto xs [] d refl (all_free xs)
  where
    all_free : (zs : List String) → All (λ z. contains [] z ≡ false) zs
    all_free [] = tt
    all_free (z ∷ zs) = (refl, all_free zs)

validate_identity-strip : (x y : String) → validate_identity x ≡ ok y → y ≡ strip x
unfolding validate_identity
validate_identity-strip x y h = elim (Bool-cases (is_blank x)) [
  | inl e ↦ cc (rw e at h)
  | inr e ↦ sym (ok-eq (rw e at h))
]

pub validate_all-strip :
    (ids names : List String) → validate_all ids ≡ ok names → names ≡ map strip ids
unfolding validate_all
validate_all-strip [] names h = sym (ok-eq h)
validate_all-strip (x ∷ xs) names h =
    joined (λ ys e. validate_all-strip xs ys e) (validate_identity x) (validate_all xs) refl refl h
  where
    joined :
        ((ys : List String) → validate_all xs ≡ ok ys → ys ≡ map strip xs)
        → (a : Result LockError String) (b : Result LockError (List String))
        → validate_identity x ≡ a
        → validate_all xs ≡ b
        → join_ids a b ≡ ok names
        → names ≡ strip x ∷ map strip xs
    joined later (raised e) b p q k = cc k
    joined later (ok y) (raised e) p q k = cc k
    joined later (ok y) (ok ys) p q k =
        let whole : y ∷ ys ≡ names = ok-eq k in
        let one = validate_identity-strip x y p in
        let more = later ys q in sym whole ∙ rw (one, more) refl
