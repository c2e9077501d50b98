-- ===== src/Foundation/Notification/Laws.antt =====
-- Who is told of a post, and what adding and removing change about it.
use mathlib.Core.List.{append_assoc, append-nil}
use grafted.Base.{
  ℕ, Bool, true, not, ◌&&◌, ◌||◌, List, [], ◌∷◌, ◌++◌, Option, none, some, ◌==◌, nat_eq, list_eq,
  ◌≡◌, ◌≢◌, ◌⊎◌, refl, sym, ap, if◌then◌else◌, retain, retain-append, Bytes, arith, Bool-cases,
  Option-cases, inl, inr, list_beq_iff,
}
use mathlib.Core.Path.{subst}
use grafted.Base.Assoc.{is_some}
use grafted.Foundation.Notification.{
  Observer, Strings, Runtime, is_none, same_name, is_named, is_reached, matches, read_cfstring,
  add_observer, remove_observer, remove_observer_name_object, dispatch_one, dispatch_all,
  post_by_name,
}

-- An application whose methods write down their calls and change the list of observers as they
-- like.
abbrev pub recorder :
    (ℕ → ℕ → Option ℕ)
    → (ℕ → List Observer → List Observer)
    → Runtime (List Observer × List (ℕ × ℕ))
recorder found change = record {
  method_for = λ w observer selector. found observer selector;
  call = λ imp observer selector notification w.
      (change observer w.0, w.1 ++ ((observer, selector) ∷ []));
  observers = λ w. w.0;
}

-- Which targets answer: those that are not null and have a method for the selector.
abbrev pub answers : (ℕ → ℕ → Option ℕ) → ℕ × ℕ → Bool
answers found (observer, selector) =
    not ((observer == 0) || (selector == 0)) && is_some (found observer selector)

dispatch_all-calls :
    (found : ℕ → ℕ → Option ℕ) (change : ℕ → List Observer → List Observer) (targets : List (ℕ × ℕ))
    (name : ℕ) (os : List Observer) (log : List (ℕ × ℕ))
    → (dispatch_all (recorder found change) targets name (os, log)).1
      ≡ log ++ retain (answers found) targets
unfolding dispatch_all dispatch_one
dispatch_all-calls found change [] name os log = ground (arith, append-nil log)
dispatch_all-calls found change ((observer, selector) ∷ rest) name os log =
    elim (Bool-cases ((observer == 0) || (selector == 0))) [
      | inl null ↦ ground (arith, dispatch_all-calls found change rest name os log)
      | inr real ↦ elim (Option-cases (found observer selector)) [
        | inl missing ↦ ground (arith, dispatch_all-calls found change rest name os log)
        | inr (imp, there) ↦
            let next = log ++ ((observer, selector) ∷ []) in
            ground (
              arith,
              dispatch_all-calls found change rest name (change observer os) next,
              append_assoc log ((observer, selector) ∷ []) (retain (answers found) rest),
            )
      ]
    ]

-- Whether a post under a name and from an object reaches a registration, said of the registration:
-- it is for that name or for all, and for that object or for all, or the post is from no object.
abbrev pub IsFor : Option Bytes → ℕ → Observer → Type 0
IsFor name object o =
    ((Observer.name o ≡ none) ⊎ (Observer.name o ≡ name))
    × ((Observer.object o ≡ 0) ⊎ ((object ≡ 0) ⊎ (Observer.object o ≡ object)))

-- Whether its method can be called: neither is null, and the observer has a method for the selector.
abbrev pub IsCallable : (ℕ → ℕ → Option ℕ) → Observer → Type 0
IsCallable found o =
    (Observer.observer o ≢ 0)
    × (Observer.selector o ≢ 0)
    × (imp : ℕ) × (found (Observer.observer o) (Observer.selector o) ≡ some imp)

-- The calls that a post is to make, along the list of registrations.
pub data AreCalled (found : ℕ → ℕ → Option ℕ) (name : Option Bytes) (object : ℕ)
    : List Observer → List (ℕ × ℕ) → Type 0 where
  nobody : AreCalled found name object [] []
  called :
      {o : Observer} {os : List Observer} {calls : List (ℕ × ℕ)}
      → IsFor name object o
      → IsCallable found o
      → AreCalled found name object os calls
      → AreCalled found name object (o ∷ os) ((Observer.observer o, Observer.selector o) ∷ calls)
  passed_over :
      {o : Observer} {os : List Observer} {calls : List (ℕ × ℕ)}
      → ¬ (IsFor name object o × IsCallable found o)
      → AreCalled found name object os calls
      → AreCalled found name object (o ∷ os) calls

same_name_sound : (s t : Option Bytes) → same_name s t ≡ true → s ≡ t
same_name_sound none none h = refl
same_name_sound none (some t) h = absurd cc
same_name_sound (some s) none h = absurd cc
same_name_sound (some s) (some t) h = ap (λ (x : Bytes). some x) ((list_beq_iff s t).0 h)

is_none_sound : (s : Option Bytes) → is_none s ≡ true → s ≡ none
is_none_sound none h = refl
is_none_sound (some s) h = absurd cc

same_name_self : (s : Option Bytes) → same_name s s ≡ true
same_name_self none = refl
same_name_self (some s) = ground (arith, list_beq_iff s s)

same_name_equal : (s t : Option Bytes) → s ≡ t → same_name s t ≡ true
same_name_equal s t e = subst (λ (x : Option Bytes). same_name s x ≡ true) e (same_name_self s)

reached-IsFor :
    (name : Option Bytes) (object : ℕ) (o : Observer)
    → is_reached name object o ≡ true
    → IsFor name object o
unfolding is_reached
reached-IsFor name object o h = (
  elim (Bool-cases (is_none o.name)) [
    | inl all ↦ inl (is_none_sound o.name all)
    | inr one ↦ inr (same_name_sound o.name name (ground (arith, h, one)))
  ],
  elim (Bool-cases (Observer.object o == 0)) [
    | inl all ↦ inl (ground (arith, all))
    | inr one ↦ elim (Bool-cases (object == 0)) [
      | inl nil ↦ inr (inl (ground (arith, nil)))
      | inr from ↦ inr (inr (ground (arith, h, one, from)))
    ]
  ],
)

IsFor-reached :
    (name : Option Bytes) (object : ℕ) (o : Observer)
    → IsFor name object o
    → is_reached name object o ≡ true
unfolding is_reached
IsFor-reached name object o (named, from) =
    let n : (is_none o.name || same_name o.name name) ≡ true = elim named [
      | inl all ↦ rw all refl
      | inr one ↦ ground (arith, same_name_equal o.name name one)
    ] in
    ground (arith, n, from)

answering-IsCallable :
    (found : ℕ → ℕ → Option ℕ) (o : Observer)
    → answers found (Observer.observer o, Observer.selector o) ≡ true
    → IsCallable found o
answering-IsCallable found o h =
    elim (Option-cases (found (Observer.observer o) (Observer.selector o))) [
      | inl missing ↦ absurd (ground (arith, h, missing))
      | inr (imp, there) ↦ ((λ z. ground (arith, h, z)), (λ z. ground (arith, h, z)), imp, there)
    ]

IsCallable-answering :
    (found : ℕ → ℕ → Option ℕ) (o : Observer)
    → IsCallable found o
    → answers found (Observer.observer o, Observer.selector o) ≡ true
IsCallable-answering found o (h1, h2, imp, there) = rw there (ground (arith, h1, h2))

calls-AreCalled :
    (found : ℕ → ℕ → Option ℕ) (name : Option Bytes) (object : ℕ) (os : List Observer)
    → AreCalled found name object os (retain (answers found) (matches name object os))
unfolding matches
calls-AreCalled found name object [] = nobody
calls-AreCalled found name object (o ∷ os) = elim (Bool-cases (is_reached name object o)) [
  | inr out ↦ rw out (
      passed_over (λ z. absurd (ground (arith, out, IsFor-reached name object o z.0)))
        (calls-AreCalled found name object os))
  | inl reached ↦ elim (Bool-cases (answers found (Observer.observer o, Observer.selector o))) [
    | inl can ↦
        rw (reached, retain, can)
          (called (reached-IsFor name object o reached) (answering-IsCallable found o can)
            (calls-AreCalled found name object os))
    | inr cannot ↦
        rw (reached, retain, cannot)
          (passed_over (λ z. absurd (ground (arith, cannot, IsCallable-answering found o z.1)))
            (calls-AreCalled found name object os))
  ]
]

-- A post calls, once each and in the order of registration, the targets whose registration is for
-- its name or for all names, and for its object or for all objects or is posted from no object, if
-- target and selector are not null and the target has the method: whatever the methods that are
-- called do to the list of observers meanwhile, and if what they do does not change which methods
-- there are.
pub post_by_name-calls :
    (found : ℕ → ℕ → Option ℕ) (change : ℕ → List Observer → List Observer) (strings : Strings)
    (name object : ℕ) (os : List Observer)
    → AreCalled found
        (read_cfstring strings name)
        object
        os
        (post_by_name (recorder found change) strings name object (os, [])).1
unfolding post_by_name
post_by_name-calls found change strings name object os =
    subst (AreCalled found (read_cfstring strings name) object os)
      (sym (
        dispatch_all-calls found change (matches (read_cfstring strings name) object os) name os
          []))
      (calls-AreCalled found (read_cfstring strings name) object os)

matches-append :
    (name : Option Bytes) (object : ℕ) (os more : List Observer)
    → matches name object (os ++ more) ≡ matches name object os ++ matches name object more
unfolding matches
matches-append name object [] more = refl
matches-append name object (o ∷ os) more = ground (arith, matches-append name object os more)

matches-remove :
    (name : Option Bytes) (object observer : ℕ) (os : List Observer)
    → matches name object (remove_observer os observer)
      ≡ retain (λ (t : ℕ × ℕ). not (t.0 == observer)) (matches name object os)
unfolding matches remove_observer
matches-remove name object observer [] = refl
matches-remove name object observer (o ∷ os) =
    ground (arith, matches-remove name object observer os)

-- What later posts reach: an added observer comes after all others, if the post reaches it, and a
-- removed one is reached by no post, while the others are reached as before.
pub matches-add_remove :
    (strings : Strings) (os : List Observer) (posted : Option Bytes)
    (from observer selector name object : ℕ)
    → (matches posted from (add_observer strings os observer selector name object)
        ≡ matches posted from os
          ++ (if is_reached posted from (record {
            observer = observer;
            selector = selector;
            name = read_cfstring strings name;
            object = object;
          })
              then (observer, selector) ∷ []
              else []))
      × (matches posted from (remove_observer os observer)
          ≡ retain (λ (t : ℕ × ℕ). not (t.0 == observer)) (matches posted from os))
unfolding add_observer matches
matches-add_remove strings os posted from observer selector name object = (
  matches-append posted from os (
      record {
        observer = observer;
        selector = selector;
        name = read_cfstring strings name;
        object = object;
      }
      ∷ []),
  matches-remove posted from observer os,
)

-- Removing with the observer, name and object of a registration undoes it, and all that the
-- observer had under that name and object before.
pub remove-add_observer :
    (strings : Strings) (os : List Observer) (observer selector name object : ℕ)
    → remove_observer_name_object strings
        (add_observer strings os observer selector name object)
        observer
        name
        object
      ≡ remove_observer_name_object strings os observer name object
unfolding remove_observer_name_object add_observer
remove-add_observer strings os observer selector name object =
    let added : Observer = record {
      observer = observer;
      selector = selector;
      name = read_cfstring strings name;
      object = object;
    } in
    let named : is_named observer (read_cfstring strings name) object added ≡ true =
      ground (arith, same_name_self (read_cfstring strings name)) in
    let kept : Observer → Bool =
      λ o. not (is_named observer (read_cfstring strings name) object o) in
    ground (arith, retain-append kept os (added ∷ []), append-nil (retain kept os))
