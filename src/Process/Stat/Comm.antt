-- ===== src/Process/Stat/Comm.antt =====
-- process.go: the command name in /proc/<pid>/stat.
use mathlib.Core.Path.{ap₂}
use systats.Go.Strings.Split.{Lacks}
use systats.Go.Strings.Index.{last_index_of-append, index_of-append}
use systats.Go.Strings.{fields, last_index_of}
use systats.Prelude.Text.{Text}
use systats.Prelude.{
  ℕ, suc, ◌+◌, ◌-◌, ◌≡◌, refl, ap, sym, true, false, ◌∙◌, some, List, [], ◌∷◌, ◌++◌, append_assoc,
  arith, ltb, length, length-append, drop, take-append,
}
use systats.Process.Stat.{comm_of, stat_of_fields, parse_proc_stat}

-- The kernel's line: the pid, the name in parentheses, a space, and the other fields.
abbrev pub stat_line : Text → Text → Text → Text
stat_line pid comm rest = pid ++ (b'(' ∷ (comm ++ (b')' ∷ 32 ∷ rest)))

drop_behind {ℓ} : {A : Type ℓ} (xs ys : List A) (c : A) → drop (length xs + 1) (xs ++ (c ∷ ys)) ≡ ys
drop_behind [] ys c = refl
drop_behind (x ∷ xs) ys c =
    let e : suc (length xs) + 1 ≡ suc (length xs + 1) = omega arith in rw e (drop_behind xs ys c)

drop_behind_two {ℓ} :
    {A : Type ℓ} (xs ys : List A) (c d : A) → drop (length xs + 2) (xs ++ (c ∷ d ∷ ys)) ≡ ys
drop_behind_two [] ys c d = refl
drop_behind_two (x ∷ xs) ys c d =
    let e : suc (length xs) + 2 ≡ suc (length xs + 2) = omega arith in
    rw e (drop_behind_two xs ys c d)

parse_at :
    (content : Text) (idx : ℕ)
    → last_index_of content b')' ≡ some idx
    → ltb (length content) (idx + 2) ≡ false
    → parse_proc_stat content
      ≡ stat_of_fields (comm_of content idx) (fields (drop (idx + 2) content))
unfolding parse_proc_stat
parse_at content idx h k = rw (h, parse_proc_stat) (rw k)

module _ (pid comm rest : Text) (hp : Lacks b'(' pid) (hr : Lacks b')' rest) where
  front : Text
  front = pid ++ (b'(' ∷ comm)

  regroup : stat_line pid comm rest ≡ front ++ (b')' ∷ 32 ∷ rest)
  unfolding front
  regroup = sym (append_assoc pid (b'(' ∷ comm) (b')' ∷ 32 ∷ rest))

  last_paren : last_index_of (stat_line pid comm rest) b')' ≡ some (length front)
  last_paren =
      ap (λ s. last_index_of s b')') regroup
      ∙ last_index_of-append front (32 ∷ rest) b')' ((omega arith), hr)

  length-front : length front ≡ length pid + 1 + length comm
  unfolding front
  length-front = omega (arith, length-append pid (b'(' ∷ comm))

  comm_of-stat_line : comm_of (stat_line pid comm rest) (length front) ≡ comm
  unfolding comm_of
  comm_of-stat_line =
      rw (index_of-append pid (comm ++ (b')' ∷ 32 ∷ rest)) b'(' hp, comm_of)
        (rw (inside, drop_behind pid (comm ++ (b')' ∷ 32 ∷ rest)) b'(', width) (take-append comm _))
    where
      inside : ltb (length pid) (length front) ≡ true
      inside = ground (arith, length-front)

      width : length front - (length pid + 1) ≡ length comm
      width = omega (arith, length-front)

  rest_of-stat_line : drop (length front + 2) (stat_line pid comm rest) ≡ rest
  rest_of-stat_line = ap (drop (length front + 2)) regroup ∙ drop_behind_two front rest b')' 32

  long_enough : ltb (length (stat_line pid comm rest)) (length front + 2) ≡ false
  long_enough =
      let e = ap (λ (s : Text). length s) regroup in
      ground (arith, e, length-append front (b')' ∷ 32 ∷ rest))

  -- Whatever characters the name holds, parentheses and spaces among them, parseProcStat takes it
  -- whole and reads the other fields from what follows its closing parenthesis, if the pid has no
  -- opening and the other fields no closing parenthesis.
  pub parse_proc_stat-stat_line :
      parse_proc_stat (stat_line pid comm rest) ≡ stat_of_fields comm (fields rest)
  parse_proc_stat-stat_line =
      parse_at (stat_line pid comm rest) (length front) last_paren long_enough
      ∙ ap₂ (λ c r. stat_of_fields c (fields r)) comm_of-stat_line rest_of-stat_line
