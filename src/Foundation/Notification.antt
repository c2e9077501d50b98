-- ===== src/Foundation/Notification.antt =====
-- crates/grafted-frameworks/src/foundation/notification.rs: observers and posts.
-- The application's memory and methods are parameters. The mutex is held for one operation and
-- not while observers are called, so that each operation is one step on the list.
pub mod Laws
use grafted.Cf.{cf_string_type_id}
use grafted.Base.{
  ℕ, Bool, true, false, not, ◌&&◌, ◌||◌, List, [], ◌∷◌, ◌++◌, Option, none, some, ◌==◌, nat_eq,
  list_eq, if◌then◌else◌, retain, Bytes,
}

pub record Observer : Type 0 where
  pub observer : ℕ
  pub selector : ℕ
  pub name : Option Bytes
  pub object : ℕ

-- What stands behind pointers: the type of a CF object there and a CFString's bytes, or a C string;
-- and which bytes are UTF-8. The pointer 0 is null.
pub record Strings : Type 0 where
  pub type_id : ℕ → ℕ
  pub cf_bytes : ℕ → Bytes
  pub c_bytes : ℕ → Bytes
  pub is_utf8 : Bytes → Bool

-- `Option<String>`'s equality.
abbrev pub same_name : Option Bytes → Option Bytes → Bool
same_name none none = true
same_name none (some t) = false
same_name (some s) none = false
same_name (some s) (some t) = s == t

abbrev pub is_none : Option Bytes → Bool
is_none none = true
is_none (some s) = false

unfoldable pub read_cfstring : Strings → ℕ → Option Bytes
read_cfstring strings p =
    let bytes =
      if strings.type_id p == cf_string_type_id then strings.cf_bytes p else strings.c_bytes p in
    if p == 0 then none else if strings.is_utf8 bytes then some bytes else none

unfoldable pub add_observer : Strings → List Observer → ℕ → ℕ → ℕ → ℕ → List Observer
add_observer strings observers observer selector name object =
    observers
    ++ (record {
      observer = observer;
      selector = selector;
      name = read_cfstring strings name;
      object = object;
    }
        ∷ [])

unfoldable pub remove_observer : List Observer → ℕ → List Observer
remove_observer observers observer =
    retain (λ (o : Observer). not (Observer.observer o == observer)) observers

-- Which registrations `removeObserver:name:object:` names; a null name or object names all.
abbrev pub is_named : ℕ → Option Bytes → ℕ → Observer → Bool
is_named observer name object o =
    (o.observer == observer)
    && ((is_none name || same_name o.name name) && ((object == 0) || (o.object == object)))

unfoldable pub remove_observer_name_object : Strings → List Observer → ℕ → ℕ → ℕ → List Observer
remove_observer_name_object strings observers observer name object =
    retain (λ (o : Observer). not (is_named observer (read_cfstring strings name) object o))
      observers

-- Whether a post reaches a registration; null on either side of the object matches all.
unfoldable pub is_reached : Option Bytes → ℕ → Observer → Bool
is_reached name object o =
    (is_none o.name || same_name o.name name)
    && ((o.object == 0) || ((object == 0) || (o.object == object)))

-- The targets and selectors of a post, in the order of registration.
unfoldable pub matches : Option Bytes → ℕ → List Observer → List (ℕ × ℕ)
matches name object [] = []
matches name object (o ∷ os) =
    let rest = matches name object os in
    if is_reached name object o then (o.observer, o.selector) ∷ rest else rest

-- `grafted_lookup_method` and the call of what it finds, on the whole state `W`.
pub record Runtime (W : Type 0) : Type 0 where
  pub method_for : W → ℕ → ℕ → Option ℕ
  pub call : ℕ → ℕ → ℕ → ℕ → W → W
  pub observers : W → List Observer

module _ {W : Type 0} (runtime : Runtime W) where
  open runtime use {method_for, call, observers}

  unfoldable pub dispatch_one : ℕ → ℕ → ℕ → W → W
  dispatch_one observer selector notification w =
      if (observer == 0) || (selector == 0) then w else elim (method_for w observer selector) [
        | none ↦ w
        | some imp ↦ call imp observer selector notification w
      ]

  unfoldable pub dispatch_all : List (ℕ × ℕ) → ℕ → W → W
  dispatch_all [] notification w = w
  dispatch_all ((observer, selector) ∷ rest) notification w =
      dispatch_all rest notification (dispatch_one observer selector notification w)

  -- Both forms of `postNotificationName:`. The targets are copied before the first call.
  unfoldable pub post_by_name : Strings → ℕ → ℕ → W → W
  post_by_name strings name object w =
      dispatch_all (matches (read_cfstring strings name) object (observers w)) name w
