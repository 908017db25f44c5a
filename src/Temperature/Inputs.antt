-- ===== src/Temperature/Inputs.antt =====
-- temperature.go: the names of the files that hold a reading.
use systats.Go.Strings.{has_prefix, trim_suffix}
use systats.Prelude.Text.{Text, codes, eqb_iff}
use systats.Prelude.{◌≡◌, ◌≢◌, sym, true, some, subst, ◌↔◌, ◌++◌, arith}
use systats.Temperature.{temp_input_prefix}
use systats.Go.Strings.Affixes.{trim_suffix-append, has_suffix-append, trim_suffix-append_self}

-- The file of a sensor: `prefix` and "_input", where the prefix is more than "temp".
pub record IsInput (file_name prefix : Text) : Type 0 where
  pub named : file_name ≡ prefix ++ codes "_input"
  pub temp : has_prefix file_name (codes "temp") ≡ true
  pub numbered : prefix ≢ codes "temp"

pub temp_input_prefix-IsInput :
    (file_name prefix : Text) → temp_input_prefix file_name ≡ some prefix → IsInput file_name prefix
unfolding temp_input_prefix
temp_input_prefix-IsInput file_name prefix h = record {
  named = ground (arith, trim_suffix-append file_name (codes "_input"));
  temp = ground arith;
  numbered = ground (arith, eqb_iff (trim_suffix file_name (codes "_input")) (codes "temp"));
}

-- A file is taken for a sensor exactly where it is spelled so, and then by its prefix.
pub temp_input_prefix_iff :
    (file_name prefix : Text)
    → (temp_input_prefix file_name ≡ some prefix) ↔ IsInput file_name prefix
unfolding temp_input_prefix
temp_input_prefix_iff file_name prefix = (temp_input_prefix-IsInput file_name prefix, back)
  where
    back : IsInput file_name prefix → temp_input_prefix file_name ≡ some prefix
    back i =
        let suffixed = has_suffix-append prefix (codes "_input") in
        let trimmed = trim_suffix-append_self prefix (codes "_input") in
        let prefixed : has_prefix (prefix ++ codes "_input") (codes "temp") ≡ true =
          subst (λ f. has_prefix f (codes "temp") ≡ true) i.named i.temp in
        subst (λ f. temp_input_prefix f ≡ some prefix) (sym i.named)
          (ground (arith, suffixed, trimmed, prefixed, i.numbered, eqb_iff prefix (codes "temp")))
