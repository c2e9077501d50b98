-- ===== src/Cf/Ownership/Clients.antt =====
-- A client of crates/grafted-frameworks/src/cf: the exported functions that change the heap as
-- commands, what each does to the references that the client owns, and when it may be given.
use grafted.Base.{
  ℕ, ◌+◌, ◌-◌, ◌^◌, ◌<◌, ◌≡◌, ◌≢◌, refl, List, [], Option, none, some, ◌==◌, nat_eq, if◌then◌else◌,
  arith, Bytes, ap, ◌%◌, true,
}
use grafted.Base.Assoc.{Map}
use grafted.Cf.{
  Payload, cf_array, cf_dictionary, cf_string, cf_data, Store, create, cf_retain, cf_release,
  destructor_fits, cf_string_type_id, cf_data_type_id, cf_array_type_id, cf_dictionary_type_id,
}
use grafted.Cf.Arrays.{
  PointerArray, cf_array_create, cf_array_create_mutable, cf_array_append_value,
}
use grafted.Cf.Dictionaries.{
  cf_dictionary_create, cf_dictionary_create_mutable, cf_dictionary_set_value,
  cf_dictionary_remove_value,
}
use grafted.Cf.Buffers.{cf_data_create, data_bytes}
use grafted.Cf.Strings.{cf_string_create_with_c_string}
use grafted.Cf.Unicode.{str_or_empty}
use grafted.Cf.Ownership.{IsSound, holds, refs, more}
use grafted.Cf.Ownership.Counts.{
  payload_at, IsUsable, IsSound-le, create-IsSound, cf_retain-IsSound, cf_release-IsSound,
}
use grafted.Cf.Ownership.Values.{no_object}
use grafted.Cf.Ownership.Appended.{AreUsable, append-IsSound, array_create-IsSound}
use grafted.Cf.Ownership.Inserted.{
  set_value-IsSound, remove_value-IsSound, dictionary_create-IsSound,
}

pub data Command : Type 0 where
  retain : ℕ → Command
  release : ℕ → Command
  make_string : (fresh : ℕ) → Bytes → Command
  make_data : (fresh : ℕ) → Option (ℕ → ℕ) → (len : ℕ) → Command
  make_array : (fresh : ℕ) → PointerArray → (num : ℕ) → Command
  make_mutable_array : (fresh : ℕ) → Command
  append : (arr v : ℕ) → Command
  make_dictionary : (fresh : ℕ) → PointerArray → PointerArray → (num : ℕ) → Command
  make_mutable_dictionary : (fresh : ℕ) → Command
  set_value : (dict key v : ℕ) → Command
  remove_value : (dict key : ℕ) → Command

abbrev pub first : {A : Type 0} → Option (Store × A) → Option Store
first none = none
first (some r) = some r.0

unfoldable pub perform : Command → Store → Option Store
perform (retain a) st = first (cf_retain st a)
perform (release a) st = cf_release st a
perform (make_string fresh cstr) st = some (cf_string_create_with_c_string fresh st (some cstr)).0
perform (make_data fresh bytes len) st = some (cf_data_create fresh st bytes len).0
perform (make_array fresh values num) st = first (cf_array_create fresh st values num)
perform (make_mutable_array fresh) st = some (cf_array_create_mutable fresh st).0
perform (append arr v) st = cf_array_append_value st arr v
perform (make_dictionary fresh keys values num) st =
    first (cf_dictionary_create fresh st keys values num)
perform (make_mutable_dictionary fresh) st = some (cf_dictionary_create_mutable fresh st).0
perform (set_value dict key v) st = cf_dictionary_set_value st dict key v
perform (remove_value dict key) st = cf_dictionary_remove_value st dict key

abbrev pub fewer : (ℕ → ℕ) → ℕ → ℕ → ℕ
fewer owned a x = owned x - (if a == x then 1 else 0)

-- The client owns what it creates and retains, and gives up what it releases.
unfoldable pub owned_after : Command → (ℕ → ℕ) → ℕ → ℕ
owned_after (retain a) owned = more owned a
owned_after (release a) owned = fewer owned a
owned_after (make_string fresh cstr) owned = more owned fresh
owned_after (make_data fresh bytes len) owned = more owned fresh
owned_after (make_array fresh values num) owned = more owned fresh
owned_after (make_mutable_array fresh) owned = more owned fresh
owned_after (append arr v) owned = owned
owned_after (make_dictionary fresh keys values num) owned = more owned fresh
owned_after (make_mutable_dictionary fresh) owned = more owned fresh
owned_after (set_value dict key v) owned = owned
owned_after (remove_value dict key) owned = owned

-- The allocator gives an address that is not null and where nothing lives.
abbrev pub IsFresh : Store → ℕ → Type 0
IsFresh st fresh = (fresh ≢ 0) × (payload_at st fresh ≡ none)

-- A command may be given: it releases only what the client owns, it names live objects of the type
-- that it is for, and no count reaches 2 ^ 32.
unfoldable pub IsPermitted : Command → Store → (ℕ → ℕ) → Type 0
IsPermitted (retain a) st owned = (a ≢ 0) × (0 < refs st a) × (refs st a + 1 < 2 ^ 32)
IsPermitted (release a) st owned = (a ≢ 0) × (0 < owned a)
IsPermitted (make_string fresh cstr) st owned = IsFresh st fresh
IsPermitted (make_data fresh bytes len) st owned = IsFresh st fresh
IsPermitted (make_array fresh values num) st owned =
    IsFresh st fresh × ((f : ℕ → ℕ) → values ≡ some f → AreUsable st f num)
IsPermitted (make_mutable_array fresh) st owned = IsFresh st fresh
IsPermitted (append arr v) st owned =
    (arr ≢ 0) × ((vs : List ℕ) × (payload_at st arr ≡ some (cf_array vs))) × IsUsable st v
IsPermitted (make_dictionary fresh keys values num) st owned =
    IsFresh st fresh × ((f : ℕ → ℕ) → values ≡ some f → AreUsable st f num)
IsPermitted (make_mutable_dictionary fresh) st owned = IsFresh st fresh
IsPermitted (set_value dict key v) st owned =
    (dict ≢ 0) × ((m : Map ℕ ℕ) × (payload_at st dict ≡ some (cf_dictionary m))) × IsUsable st v
IsPermitted (remove_value dict key) st owned =
    (dict ≢ 0) × ((m : Map ℕ ℕ) × (payload_at st dict ≡ some (cf_dictionary m)))

-- An object without values is made.
make-IsSound :
    (st : Store) (owned : ℕ → ℕ) (fresh id : ℕ) (payload : Payload)
    → IsSound st owned
    → IsFresh st fresh
    → ((x : ℕ) → holds payload x ≡ 0)
    → destructor_fits (id % 2 ^ 16) payload ≡ true
    → IsSound (create st fresh id payload).0 (more owned fresh)
make-IsSound st owned fresh id payload sound (present, free) empty fits =
    create-IsSound st owned fresh id payload
      (IsSound-le st owned (λ x. holds payload x + owned x) sound (λ x h. omega (arith, empty x)))
      present (no_object st fresh free) fits

-- A command that may be given runs, and the counts stay true.
pub perform-IsSound :
    (c : Command) (st : Store) (owned : ℕ → ℕ)
    → IsSound st owned
    → IsPermitted c st owned
    → (st1 : Store) × (perform c st ≡ some st1) × IsSound st1 (owned_after c owned)
unfolding perform owned_after IsPermitted holds destructor_fits cf_string_create_with_c_string
    cf_data_create cf_array_create_mutable cf_dictionary_create_mutable
perform-IsSound (retain a) st owned sound (present, live, room) =
    let (st1, e, s, r, p) = cf_retain-IsSound st owned a sound present live room in
    (st1, ap first e, s)
perform-IsSound (release a) st owned sound (present, mine) =
    cf_release-IsSound st (fewer owned a) a
      (IsSound-le st owned (more (fewer owned a) a) sound (λ x h. ground (arith, mine))) present
perform-IsSound (make_string fresh cstr) st owned sound free = (
  (cf_string_create_with_c_string fresh st (some cstr)).0,
  refl,
  make-IsSound st owned fresh cf_string_type_id (cf_string (str_or_empty cstr)) sound free
      (λ x. refl) refl,
)
perform-IsSound (make_data fresh bytes len) st owned sound free = (
  (cf_data_create fresh st bytes len).0,
  refl,
  make-IsSound st owned fresh cf_data_type_id (cf_data (data_bytes bytes len)) sound free
      (λ x. refl) refl,
)
perform-IsSound (make_array fresh values num) st owned sound ((present, free), usable) =
    let (r, e, s) = array_create-IsSound fresh st owned values num sound present free usable in
    (r.0, ap first e, s)
perform-IsSound (make_mutable_array fresh) st owned sound free = (
  (cf_array_create_mutable fresh st).0,
  refl,
  make-IsSound st owned fresh cf_array_type_id (cf_array []) sound free (λ x. refl) refl,
)
perform-IsSound (append arr v) st owned sound (present, (vs, there), usable) =
    append-IsSound st owned arr v vs sound present there usable
perform-IsSound (make_dictionary fresh keys values num) st owned sound ((present, free), usable) =
    let (r, e, s) =
      dictionary_create-IsSound fresh st owned keys values num sound present free usable in
    (r.0, ap first e, s)
perform-IsSound (make_mutable_dictionary fresh) st owned sound free = (
  (cf_dictionary_create_mutable fresh st).0,
  refl,
  make-IsSound st owned fresh cf_dictionary_type_id (cf_dictionary []) sound free (λ x. refl) refl,
)
perform-IsSound (set_value dict key v) st owned sound (present, (m, there), usable) =
    let (st1, e, s, p) = set_value-IsSound st owned dict key v m sound present there usable in
    (st1, e, s)
perform-IsSound (remove_value dict key) st owned sound (present, (m, there)) =
    let (st1, e, s, p) = remove_value-IsSound st owned dict key m sound present there in (st1, e, s)
