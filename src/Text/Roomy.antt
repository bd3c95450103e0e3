-- ===== src/Text/Roomy.antt =====
-- Computations whose result does not depend on the heap as long as `malloc` refuses nothing.
use ipfix.Common.{
  ℕ, Bool, true, ◌≡◌, refl, sym, ap, ◌∙◌, List, [], ◌∷◌, Option, none, some, false, if◌then◌else◌,
}
use ipfix.Heap.{Heap, M, ◌>>=◌, ◌>>◌, pure, has_room, roomy, malloc, realloc, free}
use ipfix.Text.Join.{string_split_room, string_split_roomy}
use ipfix.Text.Trim.{string_trim_copy}
use ipfix.Text.{Bytes, StringList, string_split, string_list_free, free_items}

-- With room in the heap there is room afterwards, and the result is that on an unlimited heap.
unfoldable pub Roomy : {A : Type 0} → M A → Type 0
Roomy m =
    (h : Heap)
    → has_room h.plan ≡ true
    → (has_room (m h).1.plan ≡ true) × ((m h).0 ≡ (m (roomy 0)).0)

pub pure-Roomy : (A : Type 0) (a : A) → Roomy (pure a)
unfolding Roomy
pure-Roomy A a h room = (room, refl)

pub bind-Roomy :
    (A B : Type 0) (m : M A) (f : A → M B) → Roomy m → ((a : A) → Roomy (f a)) → Roomy (m >>= f)
unfolding Roomy
bind-Roomy A B m f p q h room =
    let (room', same) = p h room in
    let (left, end) = q (m h).0 (m h).1 room' in
    let base = q (m (roomy 0)).0 (m (roomy 0)).1 (p (roomy 0) refl).0 in
    (left, end ∙ ap (λ a. (f a (roomy 0)).0) same ∙ sym base.1)

pub string_split-Roomy : (s d : Bytes) → Roomy (string_split s d)
unfolding Roomy
string_split-Roomy s d h room = (
  string_split_roomy s d h room,
  string_split_room s d h room ∙ sym (string_split_room s d (roomy 0) refl),
)

free_items_plan : (xs : List Bytes) (h : Heap) → (free_items xs true h).1.plan ≡ h.plan
unfolding free_items free
free_items_plan [] h = refl
free_items_plan (x ∷ xs) h = free_items_plan xs _

pub string_list_free-Roomy : (l : Option StringList) → Roomy (string_list_free l true)
unfolding Roomy string_list_free free
string_list_free-Roomy none h room = (room, refl)
string_list_free-Roomy (some l) h room = (ap has_room (free_items_plan l.items h) ∙ room, refl)

pub if-Roomy : (A : Type 0) (b : Bool) (m k : M A) → Roomy m → Roomy k → Roomy (if b then m else k)
if-Roomy A true m k p q = p
if-Roomy A false m k p q = q

-- What is computed from the tokens of a text, when these are freed behind it.
pub free-Roomy :
    (A : Type 0) (tokens : StringList) (a : A)
    → Roomy (string_list_free (some tokens) true >> pure a)
free-Roomy A tokens a =
    bind-Roomy (Unit {0}) A (string_list_free (some tokens) true) (λ _. pure a)
      (string_list_free-Roomy (some tokens)) (λ _. pure-Roomy A a)

pub map-Roomy : (A B : Type 0) (m : M A) (f : A → B) → Roomy m → Roomy (m >>= λ a. pure (f a))
map-Roomy A B m f p = bind-Roomy A B m (λ a. pure (f a)) p (λ a. pure-Roomy B (f a))

pub Roomy-room :
    {A : Type 0} (m : M A)
    → Roomy m
    → (h : Heap) → has_room h.plan ≡ true
    → has_room (m h).1.plan ≡ true
unfolding Roomy
Roomy-room m p h room = (p h room).0

string_trim_copy_plan :
    (t set : Bytes) (live : ℕ) (plan : List Bool)
    → has_room plan ≡ true
    → has_room (string_trim_copy (some t) (some set) (record { plan = plan; live = live })).1.plan
      ≡ true
unfolding string_trim_copy malloc realloc free
string_trim_copy_plan t set live [] room = refl
string_trim_copy_plan t set live (true ∷ []) room = refl
string_trim_copy_plan t set live (true ∷ true ∷ plan) room = room
string_trim_copy_plan t set live (true ∷ false ∷ plan) room = cc
string_trim_copy_plan t set live (false ∷ plan) room = cc

pub string_trim_copy_room :
    (t set : Bytes) (h : Heap)
    → has_room h.plan ≡ true
    → has_room (string_trim_copy (some t) (some set) h).1.plan ≡ true
string_trim_copy_room t set h room = string_trim_copy_plan t set h.live h.plan room

pub Roomy-same :
    {A : Type 0} (m : M A)
    → Roomy m
    → (h : Heap) → has_room h.plan ≡ true
    → (m h).0 ≡ (m (roomy 0)).0
unfolding Roomy
Roomy-same m p h room = (p h room).1
