-- ===== src/Migrations/Applied.antt =====
-- What `ListFS` lists and `ApplyFS` executes (internal/migrations/migrations.go).
use tuplespace.Base.{
  ℕ, suc, ◌≡◌, inl, inr, refl, ◌∙◌, Bool, true, false, ◌&&◌, ◌||◌, not, some, List, [], ◌∷◌, map,
  Text, codes, text_eq, ok, ok-injective, if◌then◌else◌, arith, Bool-cases,
}
use tuplespace.Service.Schema.{text_before}
use tuplespace.Migrations.{
  DirEntry, has_suffix, insert_entry, sort_entries, filter_entries, list_entries, list_fs,
}

abbrev pub is_migration : DirEntry → Bool
is_migration e = not e.is_dir && has_suffix e.name (codes ".sql")

-- No name comes before one that stands in front of it.
abbrev pub NoneBefore : Text → List Text → Type 0
NoneBefore n [] = Unit
NoneBefore n (m ∷ ms) = (text_before m n ≡ false) × NoneBefore n ms

abbrev pub IsAscending : List Text → Type 0
IsAscending [] = Unit
IsAscending (n ∷ ns) = NoneBefore n ns × IsAscending ns

abbrev names : List DirEntry → List Text
names = map (λ e. e.name)

-- How many entries of the directory are migrations of this name, and how often it is listed.
abbrev pub migrations_named : Text → List DirEntry → ℕ
migrations_named n [] = 0
migrations_named n (e ∷ es) =
    if is_migration e && text_eq e.name n
    then suc (migrations_named n es)
    else migrations_named n es

abbrev pub times : Text → List Text → ℕ
times n [] = 0
times n (m ∷ ms) = if text_eq m n then suc (times n ms) else times n ms

before_asymmetric : (s t : Text) → text_before s t ≡ true → text_before t s ≡ false
unfolding text_before
before_asymmetric s [] h = cc
before_asymmetric [] (b ∷ t) h = refl
before_asymmetric (a ∷ s) (b ∷ t) h = ground (arith, before_asymmetric s t)

before_passes :
    (s t u : Text) → text_before t s ≡ false → text_before u t ≡ false → text_before u s ≡ false
unfolding text_before
before_passes [] t [] h k = refl
before_passes [] t (c ∷ u) h k = refl
before_passes (a ∷ s) [] u h k = cc
before_passes (a ∷ s) (b ∷ t) [] h k = cc
before_passes (a ∷ s) (b ∷ t) (c ∷ u) h k = ground (arith, before_passes s t u)

passes_over :
    (s t : Text) (ns : List Text) → text_before t s ≡ false → NoneBefore t ns → NoneBefore s ns
passes_over s t [] h k = tt
passes_over s t (n ∷ ns) h (k, ks) = (before_passes s t n h k, passes_over s t ns h ks)

insert_entry-NoneBefore :
    (s : Text) (e : DirEntry) (fs : List DirEntry)
    → text_before e.name s ≡ false
    → NoneBefore s (names fs)
    → NoneBefore s (names (insert_entry e fs))
unfolding insert_entry
insert_entry-NoneBefore s e [] h k = (h, tt)
insert_entry-NoneBefore s e (f ∷ fs) h (k, ks) = elim (Bool-cases (text_before f.name e.name)) [
  | inl b ↦ rw b (k, insert_entry-NoneBefore s e fs h ks)
  | inr b ↦ rw b (h, (k, ks))
]

insert_entry-IsAscending :
    (e : DirEntry) (fs : List DirEntry)
    → IsAscending (names fs)
    → IsAscending (names (insert_entry e fs))
unfolding insert_entry
insert_entry-IsAscending e [] h = (tt, tt)
insert_entry-IsAscending e (f ∷ fs) (k, ks) = elim (Bool-cases (text_before f.name e.name)) [
  | inl b ↦ rw b (
    insert_entry-NoneBefore f.name e fs (before_asymmetric f.name e.name b) k,
    insert_entry-IsAscending e fs ks,
  )
  | inr b ↦ rw b ((b, passes_over e.name f.name (names fs) b k), (k, ks))
]

sort_entries-IsAscending : (es : List DirEntry) → IsAscending (names (sort_entries es))
unfolding sort_entries
sort_entries-IsAscending [] = tt
sort_entries-IsAscending (e ∷ es) =
    insert_entry-IsAscending e (sort_entries es) (sort_entries-IsAscending es)

filter_entries-NoneBefore :
    (s : Text) (es : List DirEntry)
    → NoneBefore s (names es)
    → NoneBefore s (names (filter_entries es))
unfolding filter_entries
filter_entries-NoneBefore s [] h = tt
filter_entries-NoneBefore s (e ∷ es) (h, hs) =
    elim (Bool-cases (e.is_dir || not (has_suffix e.name (codes ".sql")))) [
      | inl b ↦ rw b (filter_entries-NoneBefore s es hs)
      | inr b ↦ rw b (h, filter_entries-NoneBefore s es hs)
    ]

filter_entries-IsAscending :
    (es : List DirEntry) → IsAscending (names es) → IsAscending (names (filter_entries es))
unfolding filter_entries
filter_entries-IsAscending [] h = tt
filter_entries-IsAscending (e ∷ es) (h, hs) =
    elim (Bool-cases (e.is_dir || not (has_suffix e.name (codes ".sql")))) [
      | inl b ↦ rw b (filter_entries-IsAscending es hs)
      | inr b ↦ rw b (filter_entries-NoneBefore e.name es h, filter_entries-IsAscending es hs)
    ]

migrations_named-insert_entry :
    (n : Text) (e : DirEntry) (fs : List DirEntry)
    → migrations_named n (insert_entry e fs) ≡ migrations_named n (e ∷ fs)
unfolding insert_entry
migrations_named-insert_entry n e [] = refl
migrations_named-insert_entry n e (f ∷ fs) = ground (arith, migrations_named-insert_entry n e fs)

migrations_named-sort_entries :
    (n : Text) (es : List DirEntry) → migrations_named n (sort_entries es) ≡ migrations_named n es
unfolding sort_entries
migrations_named-sort_entries n [] = refl
migrations_named-sort_entries n (e ∷ es) =
    ground (
      arith,
      migrations_named-insert_entry n e (sort_entries es),
      migrations_named-sort_entries n es,
    )

times-filter_entries :
    (n : Text) (es : List DirEntry) → times n (names (filter_entries es)) ≡ migrations_named n es
unfolding filter_entries
times-filter_entries n [] = refl
times-filter_entries n (e ∷ es) = ground (arith, times-filter_entries n es)

-- What is listed comes in ascending order of the names, and has each name as often as the directory has a
-- file of that name that ends in ".sql".
pub list_fs-IsAscending :
    (es : List DirEntry) (ns : List Text)
    → list_fs (some es) ≡ ok ns
    → IsAscending ns × ((n : Text) → times n ns ≡ migrations_named n es)
unfolding list_fs list_entries
list_fs-IsAscending es ns h = rw (← ok-injective h) (
  filter_entries-IsAscending (sort_entries es) (sort_entries-IsAscending es),
  λ n. times-filter_entries n (sort_entries es) ∙ migrations_named-sort_entries n es,
)
