-- ===== src/Modelfile/Workspace/Limits.antt =====
-- The limits of a workspace: the walk ends well exactly for what stays within them, and its int64
-- total never wraps.
use modctl.Prelude.{
  is_ok, ℕ, suc, ◌+◌, ◌*◌, ◌^◌, ◌≤◌, ◌<◌, ◌≡◌, refl, inl, inr, Bool, true, false, ◌&&◌, List, [],
  ◌∷◌, arith, ltb, leb, if◌then◌else◌, Bool-cases, length, all, Text, ok, err,
}
use modctl.Modelfile.FileType.{
  Humanize, infer_file_type, max_single_file_size, max_total_workspace_size,
  max_workspace_file_count,
}
use modctl.Modelfile.HashSet.{HashSet}
use modctl.Modelfile.Record.{Modelfile}
use modctl.Modelfile.Workspace.{
  exceeds_file_count, exceeds_single_file_size, exceeds_total_size, Progress, take_file, add_file,
  add64, exceeds64,
}
use modctl.Modelfile.Workspace.Events.{Event, found, stop, run_events}

add64-small : (a b : ℕ) → a + b < 2 ^ 64 → add64 a b ≡ a + b
unfolding add64
add64-small a b h = omega arith

exceeds64-lt : (a limit : ℕ) → a < 2 ^ 63 → exceeds64 a limit ≡ ltb limit a
unfolding exceeds64
exceeds64-lt a limit h = ground arith

t_byte-eq : (u : Humanize) → u.t_byte ≡ 1000000000000
t_byte-eq u = omega (arith, u.m_byte_lem, u.g_byte_lem, u.t_byte_lem)

g_byte-eq : (u : Humanize) → u.g_byte ≡ 1000000000
g_byte-eq u = omega (arith, u.m_byte_lem, u.g_byte_lem)

sum-lt :
    (u : Humanize) (size sum : ℕ)
    → ltb (128 * u.g_byte) size ≡ false
    → sum ≤ 8 * u.t_byte
    → sum + size < 2 ^ 63
sum-lt u size sum small t = ground (arith, t_byte-eq u, g_byte-eq u)

-- The sizes are int64.
abbrev pub is_sized : Event → Bool
is_sized (found rel name size) = ltb size (2 ^ 63)
is_sized (stop rel) = true

abbrev pub total : List Event → ℕ
total [] = 0
total (found rel name size ∷ es) = size + total es
total (stop rel ∷ es) = total es

module _ (u : Humanize) where
  abbrev pub is_small : Event → Bool
  is_small (found rel name size) = leb size (128 * u.g_byte)
  is_small (stop rel) = false

  -- No entry ends the walk, no file is larger than 128 GB, there are at most 2048 files, and their
  -- sizes sum up to at most 8 TB.
  pub record IsWithinLimits (es : List Event) : Type 0 where
    pub small : all is_small es ≡ true
    pub few : length es ≤ max_workspace_file_count
    pub light : total es ≤ 8 * u.t_byte

  -- The same from a count and a total on.
  abbrev pub within : List Event → ℕ → ℕ → Bool
  within [] count sum = true
  within (found rel name size ∷ es) count sum =
      leb size (128 * u.g_byte)
      && (ltb count 2048 && (leb (sum + size) (8 * u.t_byte) && within es (suc count) (sum + size)))
  within (stop rel ∷ es) count sum = false

  pub within_sound :
      (es : List Event) (count sum : ℕ)
      → count ≤ 2048
      → sum ≤ 8 * u.t_byte
      → within es count sum ≡ true
      → (all is_small es ≡ true) × (count + length es ≤ 2048) × (sum + total es ≤ 8 * u.t_byte)
  within_sound [] count sum c t h = ground arith
  within_sound (stop rel ∷ es) count sum c t h = cc
  within_sound (found rel name size ∷ es) count sum c t h =
      ground (arith, within_sound es (suc count) (sum + size))

  pub within_complete :
      (es : List Event) (count sum : ℕ)
      → all is_small es ≡ true
      → count + length es ≤ 2048
      → sum + total es ≤ 8 * u.t_byte
      → within es count sum ≡ true
  within_complete [] count sum a c t = refl
  within_complete (stop rel ∷ es) count sum a c t = cc
  within_complete (found rel name size ∷ es) count sum a c t =
      ground (arith, within_complete es (suc count) (sum + size))

  module _ {h : HashSet} where
    -- What the walk makes of files that are within the limits.
    unfoldable pub sorted : List Event → Modelfile h → Modelfile h
    sorted [] mf = mf
    sorted (found rel name size ∷ es) mf =
        sorted es (add_file u (infer_file_type u name size) rel mf)
    sorted (stop rel ∷ es) mf = sorted es mf

    abbrev pub next : Text → Text → ℕ → Progress h → Progress h
    next rel name size p = record {
      modelfile = add_file u (infer_file_type u name size) rel p.modelfile;
      file_count = suc p.file_count;
      total_size = p.total_size + size;
    }

    unfoldable pub grown : List Event → Progress h → Progress h
    grown [] p = p
    grown (found rel name size ∷ es) p = grown es (next rel name size p)
    grown (stop rel ∷ es) p = grown es p

    pub modelfile-grown :
        (es : List Event) (p : Progress h) → (grown es p).modelfile ≡ sorted es p.modelfile
    unfolding grown sorted
    modelfile-grown [] p = refl
    modelfile-grown (found rel name size ∷ es) p = modelfile-grown es (next rel name size p)
    modelfile-grown (stop rel ∷ es) p = modelfile-grown es p

    -- The checks on one file without the machine arithmetic: the total does not wrap.
    pub take_file-exact :
        (rel name : Text) (size : ℕ) (p : Progress h)
        → size < 2 ^ 63
        → p.total_size ≤ 8 * u.t_byte
        → take_file u rel name size p ≡ (
            if ltb (128 * u.g_byte) size
            then err (exceeds_single_file_size rel)
            else if ltb 2048 (suc p.file_count)
            then err exceeds_file_count
            else if ltb (8 * u.t_byte) (p.total_size + size)
            then err exceeds_total_size
            else ok (next rel name size p))
    unfolding take_file max_single_file_size max_total_workspace_size
    take_file-exact rel name size p s t =
        rw (exceeds64-lt size (128 * u.g_byte) s) (elim (Bool-cases (ltb (128 * u.g_byte) size)) [
          | inl large ↦ rw large refl
          | inr small ↦
              let fits = sum-lt u size p.total_size small t in
              rw (add64-small p.total_size size (omega (arith, fits)))
                (rw (exceeds64-lt (p.total_size + size) (8 * u.t_byte) fits) refl)
        ])

    pub run_events-within :
        (es : List Event) (p : Progress h)
        → all is_sized es ≡ true
        → p.total_size ≤ 8 * u.t_byte
        → within es p.file_count p.total_size ≡ true
        → run_events u es p ≡ ok (grown es p)
    unfolding run_events grown
    run_events-within [] p z t w = refl
    run_events-within (stop rel ∷ es) p z t w = cc
    run_events-within (found rel name size ∷ es) p z t w =
        rw (take_file-exact rel name size p (ground arith) t)
          (ground (arith, run_events-within es (next rel name size p)))

    pub run_events-beyond :
        (es : List Event) (p : Progress h)
        → all is_sized es ≡ true
        → p.total_size ≤ 8 * u.t_byte
        → within es p.file_count p.total_size ≡ false
        → is_ok (run_events u es p) ≡ false
    unfolding run_events
    run_events-beyond [] p z t w = cc
    run_events-beyond (stop rel ∷ es) p z t w = refl
    run_events-beyond (found rel name size ∷ es) p z t w =
        rw (take_file-exact rel name size p (ground arith) t)
          (ground (arith, run_events-beyond es (next rel name size p)))
