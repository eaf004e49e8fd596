-- ===== src/Org/Children.antt =====
-- What the children map holds: the children of a key are the rows that name it as their parent.
use mathlib.Core.List.{append-nil, append_assoc}
use mathlib.Core.List.Memᴰ
use nocode_app.Base.{
  Text, text_eq, text_eq_iff, text_eq_refl, has, has-append, Option, none, some, List, [], ◌∷◌,
  ◌++◌, ◌≡◌, refl, arith, if◌then◌else◌, true, inl, inr, ◌≢◌, Bool-cases, Memᴰ,
}
use nocode_app.Schema.{Group}
use nocode_app.Org.{ChildrenMap, get_children, add_child, index_parent, index_groups, children_map}

-- the ids of one row if it names `k`
unfoldable pub named : Option Text → Text → Text → List Text
named none id k = []
named (some []) id k = []
named (some (c ∷ cs)) id k = if text_eq (c ∷ cs) k then id ∷ [] else []

unfoldable pub children_of : List Group → Text → List Text
children_of [] k = []
children_of (g ∷ all) k = named g.parent_id g.id k ++ children_of all k

get_children-add_child :
    (m : ChildrenMap) (j id k : Text)
    → get_children (add_child m j id) k
      ≡ (if text_eq j k then get_children m k ++ id ∷ [] else get_children m k)
unfolding get_children add_child
get_children-add_child [] j id k = refl
get_children-add_child ((i, ids) ∷ m) j id k =
    ground
      (arith, text_eq_iff i j, text_eq_iff i k, text_eq_iff j k, get_children-add_child m j id k)

get_children-index_parent :
    (m : ChildrenMap) (o : Option Text) (id k : Text)
    → get_children (index_parent o id m) k ≡ get_children m k ++ named o id k
unfolding index_parent named
get_children-index_parent m none id k = rw append-nil
get_children-index_parent m (some []) id k = rw append-nil
get_children-index_parent m (some (c ∷ cs)) id k =
    rw get_children-add_child
      (elim (Bool-cases (text_eq (c ∷ cs) k)) [ inl e ↦ rw e | inr e ↦ rw (e, append-nil) ])

get_children-index_groups :
    (m : ChildrenMap) (all : List Group) (k : Text)
    → get_children (index_groups m all) k ≡ get_children m k ++ children_of all k
unfolding index_groups children_of
get_children-index_groups m [] k = rw append-nil
get_children-index_groups m (g ∷ all) k = rw (
  get_children-index_groups (index_parent g.parent_id g.id m) all k,
  get_children-index_parent,
  append_assoc,
)

pub get_children-children_map :
    (all : List Group) (k : Text) → get_children (children_map all) k ≡ children_of all k
unfolding children_map get_children
get_children-children_map all k = get_children-index_groups [] all k

-- A child of `k` is the id of a row whose parent is `k`, which is not empty.
pub record IsChildRow (all : List Group) (k c : Text) : Type 0 where
  pub row : Group
  pub listed : Memᴰ row all
  pub id_eq : row.id ≡ c
  pub parent_eq : row.parent_id ≡ some k

pub has-named :
    (o : Option Text) (id k c : Text) → has (named o id k) c ≡ true → (o ≡ some k) × (id ≡ c)
unfolding has named
has-named none id k c h = cc
has-named (some []) id k c h = cc
has-named (some (x ∷ xs)) id k c h = ground (arith, text_eq_iff (x ∷ xs) k, text_eq_iff id c)

pub named-has : (id k : Text) → k ≢ [] → has (named (some k) id k) id ≡ true
unfolding has named
named-has id [] h = absurd (h refl)
named-has id (x ∷ xs) h = ground (arith, text_eq_refl (x ∷ xs), text_eq_refl id)

pub has-children_of :
    (all : List Group) (k c : Text) → has (children_of all k) c ≡ true → IsChildRow all k c
unfolding children_of
has-children_of [] k c h = unfold has in cc
has-children_of (g ∷ all) k c h =
    elim ((has-append (named g.parent_id g.id k) (children_of all k) c).0 h) [
      | inl here ↦
          let (p, i) = has-named g.parent_id g.id k c here in
          record { row = g; listed = Memᴰ.head refl; id_eq = i; parent_eq = p }
      | inr later ↦
          let r = has-children_of all k c later in
          record {
            row = r.row;
            listed = Memᴰ.tail r.listed;
            id_eq = r.id_eq;
            parent_eq = r.parent_eq;
          }
    ]

pub children_of-has :
    (all : List Group) (k : Text) (g : Group)
    → k ≢ []
    → Memᴰ g all
    → g.parent_id ≡ some k
    → has (children_of all k) g.id ≡ true
unfolding children_of
children_of-has [] k g nonempty m e = absurd (Memᴰ.not-nil m)
children_of-has (x ∷ all) k g nonempty m e = elim (Memᴰ.cases_cons m) [
  | inl same ↦
      (has-append (named x.parent_id x.id k) (children_of all k) g.id).1
        (inl (rw (← same) (rw e (named-has g.id k nonempty))))
  | inr later ↦
      (has-append (named x.parent_id x.id k) (children_of all k) g.id).1
        (inr (children_of-has all k g nonempty later e))
]
