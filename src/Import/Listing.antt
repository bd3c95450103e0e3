-- ===== src/Import/Listing.antt =====
-- The records that a list holds, as records are added to it: src/import.c, lines 209-210.
use mathlib.Core.Path.{subst}
use ipfix.Common.{
  ◌≢◌, ◌<◌, ℕ, ◌<◌, List, [], ◌∷◌, ◌++◌, Option, none, some, ◌≡◌, ◌≢◌, refl, sym, ap, ◌∙◌, arith,
  ◌≤◌, length, length-append, All, append_assoc, append-nil,
}
use ipfix.Data.{
  DataRecord, Store, RecordList, write, link_last, set_next, data_list_add, data_list_add_copy,
}
use ipfix.Data.Chain.{Holds}
use ipfix.Heap.{malloc}
use ipfix.Import.Reader.{Records, add_record}
use ipfix.Import.Result.{added, added-next, added-Holds, All-ne, All-last}

unfoldable pub add_all : List DataRecord → Records → Records
add_all [] r = r
add_all (d ∷ ds) r = add_all ds (added d r)

abbrev pub values : Store DataRecord → List ℕ → List DataRecord
values σ [] = []
values σ (a ∷ as') = (σ a).value ∷ values σ as'

-- The list holds these records in this order, over addresses that were handed out before.
pub record Lists (ds : List DataRecord) (r : Records) : Type 0 where
  pub addresses : List ℕ
  pub holds : Holds r.store r.list addresses
  pub old : All (λ a. a < r.next) addresses
  pub few : length addresses ≤ r.next
  pub contents : values r.store addresses ≡ ds

-- Adding a record leaves the others as they are.
added-other :
    (d : DataRecord) (l : Option RecordList) (σ : Store DataRecord) (n a : ℕ)
    → a ≢ n
    → ((added d (record { list = l; store = σ; next = n })).store a).value ≡ (σ a).value
unfolding add_record data_list_add_copy data_list_add malloc link_last set_next write
added-other d none σ n a ne = ground arith
added-other d (some l) σ n a ne = ground arith

added_self :
    (d : DataRecord) (l : Option RecordList) (σ : Store DataRecord) (n : ℕ)
    → ((added d (record { list = l; store = σ; next = n })).store n).value ≡ d
unfolding add_record data_list_add_copy data_list_add malloc link_last set_next write
added_self d none σ n = ground arith
added_self d (some l) σ n = ground arith

values-append :
    (σ : Store DataRecord) (xs : List ℕ) (a : ℕ)
    → values σ (xs ++ a ∷ []) ≡ values σ xs ++ (σ a).value ∷ []
values-append σ [] a = refl
values-append σ (x ∷ xs) a = ap (◌∷◌ ((σ x).value)) (values-append σ xs a)

values-added :
    (d : DataRecord) (r : Records) (xs : List ℕ)
    → All (λ x. x ≢ r.next) xs
    → values (added d r).store xs ≡ values r.store xs
values-added d r [] k = refl
values-added d r (x ∷ xs) k =
    rw (added-other d r.list r.store r.next x k.0, values-added d r xs k.1)

pub added-Lists :
    (d : DataRecord) (ds : List DataRecord) (r : Records)
    → Lists ds r
    → Lists (ds ++ d ∷ []) (added d r)
added-Lists d ds r l =
    let ne = All-ne l.addresses r.next l.old in
    record {
      addresses = l.addresses ++ r.next ∷ [];
      holds = added-Holds d r.list r.store r.next l.addresses l.holds l.old;
      old = rw (added-next d r) (All-last l.addresses r.next l.old);
      few =
          (let k = l.few in omega (arith, added-next d r, length-append l.addresses (r.next ∷ [])));
      contents =
          values-append (added d r).store l.addresses r.next
          ∙ ap (λ v. v ++ ((added d r).store r.next).value ∷ []) (values-added d r l.addresses ne)
          ∙ ap (λ v. v ++ ((added d r).store r.next).value ∷ []) l.contents
          ∙ ap (λ x. ds ++ x ∷ []) (added_self d r.list r.store r.next);
    }

pub add_all-Lists :
    (ds es : List DataRecord) (r : Records) → Lists ds r → Lists (ds ++ es) (add_all es r)
unfolding add_all
add_all-Lists ds [] r l = subst (λ x. Lists x r) (sym (append-nil ds)) l
add_all-Lists ds (e ∷ es) r l =
    subst (λ x. Lists x (add_all es (added e r))) (append_assoc ds (e ∷ []) es)
      (add_all-Lists (ds ++ e ∷ []) es (added e r) (added-Lists e ds r l))
