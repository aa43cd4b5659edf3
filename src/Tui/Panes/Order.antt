-- ===== src/Tui/Panes/Order.antt =====
-- The order of the registers does not depend on the hash map that they come from.
use mathlib.Core.List.{Mem, mem-cons, mem-cons_self, not-mem-nil, Perm}
use mathlib.Core.List.Perm
use mathlib.Core.Bool.{Bool-set}
use mathlib.Core.Logic.Or
use mathlib.Core.Path.{subst}
use tiny_binary_debugger.Base.{
  ℕ, ◌≡◌, refl, ap₂, sym, Bool, true, false, ◌&&◌, ◌||◌, List, [], ◌∷◌, ltb, ◌==◌, arith,
  Bool-cases, inl, inr,
}
use tiny_binary_debugger.Text.{Text, text_eq}
use tiny_binary_debugger.Text.Laws.{text_eq_refl, text_eq→eq}
use tiny_binary_debugger.Tui.Panes.Registers.{key_leb, reg_sort_key, insert_by_key, sort_names}

-- A register that comes strictly before another.
abbrev pub key_ltb : ℕ × ℕ → ℕ × ℕ → Bool
key_ltb a b = ltb a.0 b.0 || a.0 == b.0 && ltb a.1 b.1

key_leb_trans : (a b c : ℕ × ℕ) → key_leb a b ≡ true → key_leb b c ≡ true → key_leb a c ≡ true
unfolding key_leb
key_leb_trans a b c h k = ground arith

key_ltb_trans : (a b c : ℕ × ℕ) → key_ltb a b ≡ true → key_ltb b c ≡ true → key_ltb a c ≡ true
key_ltb_trans a b c h k = ground arith

key_leb-total : (a b : ℕ × ℕ) → key_leb a b ≡ false → key_leb b a ≡ true
unfolding key_leb
key_leb-total a b h = ground arith

key_leb-not_ltb : (a b : ℕ × ℕ) → key_leb a b ≡ true → key_ltb b a ≡ true → ⊥
unfolding key_leb
key_leb-not_ltb a b h k = ground arith

-- Every name of the list stands to `name` as `test` says.
pub record Every (test : ℕ × ℕ → ℕ × ℕ → Bool) (name : Text) (names : List Text) : Type 0 where
  pub at : (other : Text) → Mem other names → test (reg_sort_key name) (reg_sort_key other) ≡ true

Every-nil : (test : ℕ × ℕ → ℕ × ℕ → Bool) (name : Text) → Every test name []
Every-nil test name = record { at = λ other i. absurd (not-mem-nil i) }

Every-cons :
    (test : ℕ × ℕ → ℕ × ℕ → Bool) (name other : Text) (names : List Text)
    → test (reg_sort_key name) (reg_sort_key other) ≡ true
    → Every test name names
    → Every test name (other ∷ names)
Every-cons test name other names h e = record {
  at = λ x i. Or.elim (Bool-set _ _) (mem-cons.0 i) (λ p. rw p h) (e.at x);
}

-- Each name stands so to all that come later.
abbrev pub Follows : (ℕ × ℕ → ℕ × ℕ → Bool) → List Text → Type 0
Follows test [] = Unit
Follows test (name ∷ names) = Every test name names × Follows test names

insert_by_key-perm :
    (name : Text) (names : List Text) → Perm (insert_by_key name names) (name ∷ names)
unfolding insert_by_key
insert_by_key-perm name [] = Perm.refl (name ∷ [])
insert_by_key-perm name (other ∷ names) =
    elim (Bool-cases (key_leb (reg_sort_key name) (reg_sort_key other))) [
      | inl here ↦ rw here (Perm.refl (name ∷ other ∷ names))
      | inr on ↦ rw on (
          Perm.trans (Perm.cons other (insert_by_key-perm name names)) (Perm.swap name other names))
    ]

pub sort_names-perm : (names : List Text) → Perm (sort_names names) names
unfolding sort_names
sort_names-perm [] = Perm.refl []
sort_names-perm (name ∷ names) =
    Perm.trans (insert_by_key-perm name (sort_names names)) (Perm.cons name (sort_names-perm names))

insert_by_key-Follows :
    (name : Text) (names : List Text)
    → Follows key_leb names
    → Follows key_leb (insert_by_key name names)
unfolding insert_by_key
insert_by_key-Follows name [] f = (Every-nil key_leb name, tt)
insert_by_key-Follows name (other ∷ names) f =
    elim (Bool-cases (key_leb (reg_sort_key name) (reg_sort_key other))) [
      | inl here ↦ rw here (
        Every-cons key_leb name other names here (record {
          at = λ x i.
              key_leb_trans (reg_sort_key name) (reg_sort_key other) (reg_sort_key x) here
                (f.0.at x i);
        }),
        f,
      )
      | inr on ↦
          let all =
            Every-cons key_leb other name names
              (key_leb-total (reg_sort_key name) (reg_sort_key other) on)
              (record { at = f.0.at }) in
          rw on (
            record { at = λ x i. all.at x ((Perm.mem_iff (insert_by_key-perm name names)).0 i) },
            insert_by_key-Follows name names f.1,
          )
    ]

pub sort_names-Follows : (names : List Text) → Follows key_leb (sort_names names)
unfolding sort_names
sort_names-Follows [] = tt
sort_names-Follows (name ∷ names) =
    insert_by_key-Follows name (sort_names names) (sort_names-Follows names)

-- A sorted list of names with distinct keys is the only one with these names.
pub sorted_unique : (l r : List Text) → Follows key_leb l → Follows key_ltb r → Perm l r → l ≡ r
sorted_unique [] [] fl fr p = refl
sorted_unique [] (b ∷ r) fl fr p = Perm.nil-eq p
sorted_unique (a ∷ l) [] fl fr p = Perm.eq-nil p
sorted_unique (a ∷ l) (b ∷ r) fl fr p = elim (Bool-cases (text_eq a b)) [
  | inl same ↦
      let heads = text_eq→eq a b same in
      let tails = Perm.cons_inv (Perm.trans p (Perm.symm (Perm.cons' heads Perm.rfl))) in
      ap₂ ◌∷◌ heads (sorted_unique l r fl.1 fr.1 tails)
  | inr apart ↦
      let differ : a ≡ b → ⊥ =
        λ e. (let one = subst (λ t. text_eq a t ≡ true) e (text_eq_refl a) in cc) in
      let later =
        Or.elim (Bool-set _ _) (mem-cons.0 ((Perm.mem_iff p).0 mem-cons_self))
          (λ e. absurd (differ e)) (fr.0.at a) in
      let earlier =
        Or.elim (Bool-set _ _) (mem-cons.0 ((Perm.mem_iff p).1 mem-cons_self))
          (λ e. absurd (differ (sym e))) (fl.0.at b) in
      absurd (key_leb-not_ltb (reg_sort_key a) (reg_sort_key b) earlier later)
]

-- Names whose keys ascend from each to the next.
abbrev pub ascending : List Text → Bool
ascending [] = true
ascending (a ∷ []) = true
ascending (a ∷ b ∷ names) = key_ltb (reg_sort_key a) (reg_sort_key b) && ascending (b ∷ names)

and_both : (a b : Bool) → (a && b) ≡ true → (a ≡ true) × (b ≡ true)
and_both a b h = ground arith

pub ascending-Follows : (names : List Text) → ascending names ≡ true → Follows key_ltb names
ascending-Follows [] h = tt
ascending-Follows (a ∷ []) h = (Every-nil key_ltb a, tt)
ascending-Follows (a ∷ b ∷ names) h =
    let (first, rest) = and_both (key_ltb (reg_sort_key a) (reg_sort_key b)) _ h in
    let later = ascending-Follows (b ∷ names) rest in
    (
      Every-cons key_ltb a b names first (record {
        at = λ x i.
            key_ltb_trans (reg_sort_key a) (reg_sort_key b) (reg_sort_key x) first (later.0.at x i);
      }),
      later,
    )
