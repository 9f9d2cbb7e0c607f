-- ===== src/Prelude/Strings.antt =====
-- The string methods of the language that the code calls, over code units.
use Prim.Native.Nat.{ℕ, suc}
use mathlib.Core.Bool.{Bool, true, false, ◌&&◌, ◌||◌}
use mathlib.Core.Option.{Option, none, some}
use mathlib.Core.List.{List, [], ◌∷◌, ◌++◌, reverse}
use vaultsyncforagents.Prelude.Tests.{leb, nat_eq, if◌then◌else◌}
use vaultsyncforagents.Prelude.Text.{Str}

abbrev pub cons_head : ℕ → List Str → List Str
cons_head c [] = (c ∷ []) ∷ []
cons_head c (s ∷ r) = (c ∷ s) ∷ r

abbrev pub split_step : ℕ → ℕ → List Str → List Str
split_step c x rest = if nat_eq x c then [] ∷ rest else cons_head x rest

-- `s.split(c)` at a single unit.
unfoldable pub split_on : ℕ → Str → List Str
split_on c [] = [] ∷ []
split_on c (x ∷ s) = split_step c x (split_on c s)

-- `parts.join(c)`.
unfoldable pub join_with : ℕ → List Str → Str
join_with c [] = []
join_with c (s ∷ []) = s
join_with c (s ∷ t ∷ r) = s ++ (c ∷ join_with c (t ∷ r))

-- `s.includes(c)`.
unfoldable pub includes : ℕ → Str → Bool
includes c [] = false
includes c (x ∷ s) = nat_eq x c || includes c s

-- `s.startsWith(p)` and `s.endsWith(p)`.
unfoldable pub starts_with : Str → Str → Bool
starts_with s [] = true
starts_with [] (c ∷ p) = false
starts_with (x ∷ s) (c ∷ p) = nat_eq x c && starts_with s p

unfoldable pub ends_with : Str → Str → Bool
unfolding starts_with
ends_with s p = starts_with (reverse s) (reverse p)

-- `s.indexOf(c)`, with `none` for -1.
unfoldable pub index_of : ℕ → Str → Option ℕ
index_of c [] = none
index_of c (x ∷ s) =
    let rest = index_of c s in
    if nat_eq x c then some 0 else elim rest [ none ↦ none | some i ↦ some (suc i) ]

-- `s.lastIndexOf(c)`, with `none` for -1.
unfoldable pub last_index_of : ℕ → Str → Option ℕ
last_index_of c [] = none
last_index_of c (x ∷ s) = elim (last_index_of c s) [
  | some i ↦ some (suc i)
  | none ↦ if nat_eq x c then some 0 else none
]

-- `s.replace(/c/g, d)`.
unfoldable pub replace_all : ℕ → ℕ → Str → Str
replace_all c d [] = []
replace_all c d (x ∷ s) = (if nat_eq x c then d else x) ∷ replace_all c d s

-- The white space of `trim` and of `\s`.
unfoldable pub is_space : ℕ → Bool
is_space c =
    (leb 9 c && leb c 13)
    || (nat_eq c 32
        || (nat_eq c 160
            || (nat_eq c 0x1680
                || ((leb 0x2000 c && leb c 0x200a)
                    || (nat_eq c 0x2028
                        || (nat_eq c 0x2029
                            || (nat_eq c 0x202f
                                || (nat_eq c 0x205f || (nat_eq c 0x3000 || nat_eq c 0xfeff)))))))))

unfoldable pub drop_while : (ℕ → Bool) → Str → Str
drop_while p [] = []
drop_while p (x ∷ s) = let rest = drop_while p s in if p x then rest else x ∷ s

-- Both ends cut while the predicate holds.
unfoldable pub strip : (ℕ → Bool) → Str → Str
unfolding drop_while
strip p s = reverse (drop_while p (reverse (drop_while p s)))

-- `s.trim()`.
unfoldable pub trim : Str → Str
unfolding strip is_space
trim s = strip is_space s
