-- ===== src/Agent/Collectors/Sensors/Names.antt =====
-- internal/agent/collect_temp.go: what the name of a sensor looks like.
use whatsupp.Base.{
  ℕ, zero, suc, ◌+◌, ◌≤◌, ◌<◌, ◌≡◌, ◌≢◌, refl, Bool, true, false, ◌&&◌, ◌||◌, [], ◌∷◌, arith, leb,
  ◌==◌, if◌then◌else◌, length, map, All, Bool-cases, inl, inr,
}
use whatsupp.Cron.Text.{Codes}
use whatsupp.Sockets.Origin.{contains, has_prefix}
use whatsupp.Agent.Collectors.Sensors.{
  underscore, is_name_code, replace_code, collapse_pairs, collapse, trim_start, trim_end,
  sanitize_sensor_name, cpu, gpu, coretemp, package_word, k10temp, tctl, tdie, nouveau, amdgpu,
  nvidia,
}

-- No two underscores follow one another.
abbrev pub NoPair : Codes → Type 0
NoPair [] = Unit
NoPair (c ∷ []) = Unit
NoPair (c ∷ d ∷ cs) = ((c == underscore && d == underscore) ≡ false) × NoPair (d ∷ cs)

length-collapse_pairs-le : (cs : Codes) → length (collapse_pairs cs) ≤ length cs
unfolding collapse_pairs
length-collapse_pairs-le [] = omega arith
length-collapse_pairs-le (c ∷ []) = omega arith
length-collapse_pairs-le (c ∷ d ∷ cs) =
    ground (arith, length-collapse_pairs-le cs, length-collapse_pairs-le (d ∷ cs))

-- A name with a pair gets shorter.
collapse_pairs-lt :
    (cs : Codes)
    → contains cs (underscore ∷ underscore ∷ []) ≡ true
    → length (collapse_pairs cs) < length cs
unfolding collapse_pairs contains has_prefix
collapse_pairs-lt [] e = ground (arith, e)
collapse_pairs-lt (c ∷ []) e = ground (arith, e)
collapse_pairs-lt (c ∷ d ∷ cs) e =
    ground (arith, e, length-collapse_pairs-le cs, collapse_pairs-lt (d ∷ cs))

NoPair-contains : (cs : Codes) → contains cs (underscore ∷ underscore ∷ []) ≡ false → NoPair cs
unfolding contains has_prefix
NoPair-contains [] e = tt
NoPair-contains (c ∷ []) e = tt
NoPair-contains (c ∷ d ∷ cs) e = ground (arith, e, NoPair-contains (d ∷ cs))

NoPair-collapse : (fuel : ℕ) (cs : Codes) → length cs ≤ fuel → NoPair (collapse fuel cs)
unfolding collapse contains
NoPair-collapse zero [] h = tt
NoPair-collapse zero (c ∷ cs) h = absurd (omega arith)
NoPair-collapse (suc fuel) cs h = elim (Bool-cases (contains cs (underscore ∷ underscore ∷ []))) [
  | inl more ↦
      rw (more, collapse)
        (NoPair-collapse fuel (collapse_pairs cs) (omega (arith, collapse_pairs-lt cs more)))
  | inr done ↦ rw (done, collapse) (NoPair-contains cs done)
]

abbrev pub StartsWell : Codes → Type 0
StartsWell [] = Unit
StartsWell (c ∷ cs) = c ≢ underscore

abbrev pub EndsWell : Codes → Type 0
EndsWell [] = Unit
EndsWell (c ∷ []) = c ≢ underscore
EndsWell (c ∷ d ∷ cs) = EndsWell (d ∷ cs)

NoPair-tail : (c : ℕ) (cs : Codes) → NoPair (c ∷ cs) → NoPair cs
NoPair-tail c [] h = tt
NoPair-tail c (d ∷ cs) h = h.1

trim_start_lem : (cs : Codes) → NoPair cs → NoPair (trim_start cs) × StartsWell (trim_start cs)
unfolding trim_start
trim_start_lem [] h = (tt, tt)
trim_start_lem (c ∷ cs) h = elim (Bool-cases (c == underscore)) [
  | inl here ↦ rw here (trim_start_lem cs (NoPair-tail c cs h))
  | inr other ↦ rw other (h, λ e. ground (arith, other, e))
]

-- What the end of a name keeps when its underscores are gone.
record Trimmed (cs : Codes) : Type 0 where
  pairs : NoPair cs → NoPair (trim_end cs)
  starts : StartsWell cs → StartsWell (trim_end cs)
  ends : EndsWell (trim_end cs)

trim_end-Trimmed : (cs : Codes) → Trimmed cs
unfolding trim_end
trim_end-Trimmed [] = record { pairs = λ h. tt; starts = λ h. tt; ends = tt }
trim_end-Trimmed (c ∷ []) = record {
  pairs = λ h. ground (arith, h);
  starts = λ h. ground (arith, h);
  ends = ground arith;
}
trim_end-Trimmed (c ∷ d ∷ cs) =
    let ih = trim_end-Trimmed (d ∷ cs) in
    record {
      pairs = λ h. ground (arith, h, ih.pairs h.1);
      starts = λ h. ground (arith, h);
      ends = ground (arith, ih.ends);
    }

module _ (P : ℕ → Type 0) where
  All-trim_start : (cs : Codes) → All P cs → All P (trim_start cs)
  unfolding trim_start
  All-trim_start [] h = tt
  All-trim_start (c ∷ cs) h = ground (arith, All-trim_start cs)

  All-trim_end : (cs : Codes) → All P cs → All P (trim_end cs)
  unfolding trim_end
  All-trim_end [] h = tt
  All-trim_end (c ∷ cs) h = ground (arith, All-trim_end cs)

  All-collapse_pairs : (cs : Codes) → P underscore → All P cs → All P (collapse_pairs cs)
  unfolding collapse_pairs
  All-collapse_pairs [] u h = tt
  All-collapse_pairs (c ∷ []) u h = h
  All-collapse_pairs (c ∷ d ∷ cs) u h =
      ground (arith, All-collapse_pairs cs, All-collapse_pairs (d ∷ cs))

  All-collapse : (fuel : ℕ) (cs : Codes) → P underscore → All P cs → All P (collapse fuel cs)
  unfolding collapse
  All-collapse zero cs u h = h
  All-collapse (suc fuel) cs u h = elim (Bool-cases (contains cs (underscore ∷ underscore ∷ []))) [
    | inl more ↦
        rw (more, collapse) (All-collapse fuel (collapse_pairs cs) u (All-collapse_pairs cs u h))
    | inr done ↦ rw (done, collapse) h
  ]

abbrev pub is_lower_name_code : ℕ → Bool
is_lower_name_code c =
    (leb b'a' c && leb c b'z') || (leb b'0' c && leb c b'9') || c == underscore || c == b'-'

-- Only small letters, digits, underscores and dashes; no two underscores after one another, and none
-- at either end.
pub record IsSensorName (name : Codes) : Type 0 where
  pub codes : All (λ c. is_lower_name_code c ≡ true) name
  pub pairs : NoPair name
  pub starts : StartsWell name
  pub ends : EndsWell name

cpu-IsSensorName : IsSensorName cpu
cpu-IsSensorName = record {
  codes = ground arith;
  pairs = ground arith;
  starts = ground arith;
  ends = ground arith;
}

gpu-IsSensorName : IsSensorName gpu
gpu-IsSensorName = record {
  codes = ground arith;
  pairs = ground arith;
  starts = ground arith;
  ends = ground arith;
}

if-IsSensorName :
    (b : Bool) (x y : Codes) → IsSensorName x → IsSensorName y → IsSensorName (if b then x else y)
if-IsSensorName true x y h k = h
if-IsSensorName false x y h k = k

module _ (to_lower : ℕ → ℕ)
    (ascii : (c : ℕ)
      → c < 128
      → to_lower c ≡ (if leb b'A' c && leb c b'Z' then c + 32 else c)) where
  codes-lower :
      (cs : Codes)
      → All (λ c. is_name_code c ≡ true) cs
      → All (λ c. is_lower_name_code c ≡ true) (map to_lower cs)
  codes-lower [] h = tt
  codes-lower (c ∷ cs) h = (ground (arith, h.0, ascii c), codes-lower cs h.1)

  pairs-lower :
      (cs : Codes) → All (λ c. is_name_code c ≡ true) cs → NoPair cs → NoPair (map to_lower cs)
  pairs-lower [] h n = tt
  pairs-lower (c ∷ []) h n = tt
  pairs-lower (c ∷ d ∷ cs) h n =
      (ground (arith, h.0, h.1, n.0, ascii c, ascii d), pairs-lower (d ∷ cs) h.1 n.1)

  starts-lower :
      (cs : Codes)
      → All (λ c. is_name_code c ≡ true) cs
      → StartsWell cs
      → StartsWell (map to_lower cs)
  starts-lower [] h n = tt
  starts-lower (c ∷ cs) h n = λ e. ground (arith, h.0, n, e, ascii c)

  ends-lower :
      (cs : Codes) → All (λ c. is_name_code c ≡ true) cs → EndsWell cs → EndsWell (map to_lower cs)
  ends-lower [] h n = tt
  ends-lower (c ∷ []) h n = λ e. ground (arith, h.0, n, e, ascii c)
  ends-lower (c ∷ d ∷ cs) h n = ends-lower (d ∷ cs) h.1 n

  replaced : (cs : Codes) → All (λ c. is_name_code c ≡ true) (map replace_code cs)
  unfolding replace_code
  replaced [] = tt
  replaced (c ∷ cs) = (ground arith, replaced cs)

  cleaned :
      (key : Codes)
      → let name = map replace_code key in
        IsSensorName (map to_lower (trim_end (trim_start (collapse (length name) name))))
  cleaned key =
      let P : ℕ → Type 0 = λ c. is_name_code c ≡ true in
      let name = map replace_code key in
      let once = collapse (length name) name in
      let front = trim_start once in
      let ok : All P (trim_end front) =
        All-trim_end P front
          (All-trim_start P once (All-collapse P (length name) name refl (replaced key))) in
      let (pairs, starts) =
        trim_start_lem once (NoPair-collapse (length name) name (omega arith)) in
      let back = trim_end-Trimmed front in
      record {
        codes = codes-lower (trim_end front) ok;
        pairs = pairs-lower (trim_end front) ok (back.pairs pairs);
        starts = starts-lower (trim_end front) ok (back.starts starts);
        ends = ends-lower (trim_end front) ok back.ends;
      }

  -- If lowering changes the ASCII codes as it should, the name of every sensor is made of small
  -- letters, digits, underscores and dashes, with no two underscores after one another and none at
  -- either end: the loop that collapses them has ended.
  pub sanitize_sensor_name-IsSensorName :
      (key : Codes) → IsSensorName (sanitize_sensor_name to_lower key)
  unfolding sanitize_sensor_name
  sanitize_sensor_name-IsSensorName key =
      let lower = map to_lower key in
      if-IsSensorName (contains lower coretemp && contains lower package_word) _ _ cpu-IsSensorName
        (if-IsSensorName (contains lower k10temp && contains lower tctl) _ _ cpu-IsSensorName (
          if-IsSensorName (contains lower k10temp && contains lower tdie) _ _ cpu-IsSensorName (
            if-IsSensorName
              (contains lower nouveau || contains lower amdgpu || contains lower nvidia) _ _
              gpu-IsSensorName (cleaned key))))
