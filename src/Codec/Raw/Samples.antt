-- ===== src/Codec/Raw/Samples.antt =====
-- A file of three bytes that is written, and then written again with other bytes.
use modctl.Prelude.{
  ◌≡◌, refl, true, Option, none, some, [], ◌∷◌, ◌++◌, if◌then◌else◌, Text, codes, text_eq,
  text_eq_refl, ◌&&◌, length,
}
use modctl.Build.{Bytes}
use modctl.Codec.Raw.{System, Stat, missing, size_of, Layer, up_to_date, decode}
use modctl.Codec.Raw.Outcome.{Laws, DecodeOutcome, decode-DecodeOutcome}
use modctl.Codec.Raw.Again.{decode_again}

-- The contents of the files and their attributes.
abbrev Disk : Type 0
Disk = (Text → Option Bytes) × (Text → Text → Option Text)

abbrev stat_of : Option Bytes → Stat
stat_of none = missing
stat_of (some c) = size_of (length c)

abbrev disk : System
disk = record {
  State = Disk;
  mkdir_all = λ s d. (s, true);
  stat = λ s p. stat_of (s.0 p);
  get_attribute = λ s p k. s.1 p k;
  set_attribute =
      λ s p k v. ((s.0, λ p' k'. if text_eq p p' && text_eq k k' then some v else s.1 p' k'), true);
  create = λ s p. ((λ p'. if text_eq p p' then some [] else s.0 p', s.1), true);
  copy = λ s p c. ((λ p'. if text_eq p p' then some c else s.0 p', s.1), true);
  chmod = λ s p m. (s, true);
  chtimes = λ s p t. (s, true);
  join = λ d f. d ++ (codes "/" ++ f);
  dir = λ p. codes "/";
  format_int = λ n. n ∷ [];
  unmarshal = λ t. some (some (record { mode = 420; mod_time = some 7 }));
}

abbrev disk-Laws : Laws disk
disk-Laws = record {
  content_of = λ s p. s.0 p;
  stat_size = λ s p c h. rw h refl;
  mkdir_keeps = λ s d p. record { content = refl; attributes = λ k. refl };
  create_empties = λ s p h. rw (text_eq_refl p) refl;
  copy_fills = λ s p c e h. rw (text_eq_refl p) refl;
  chmod_keeps = λ s p m. refl;
  chtimes_keeps = λ s p t. refl;
  set_keeps = λ s p k v. refl;
  set_gets = λ s p k v k' h. rw (text_eq_refl p) refl;
}

abbrev layer : Layer
layer = record { digest = codes "d"; size = 3; metadata = some ([], codes "m") }

abbrev clean : Disk
clean = (λ p. none, λ p k. none)

decode-DecodeOutcome_example :
    DecodeOutcome disk disk-Laws clean
      (codes "out/w")
      (codes "abc")
      layer
      (decode disk clean (codes "out") (codes "w") (codes "abc") layer)
decode-DecodeOutcome_example =
    decode-DecodeOutcome disk disk-Laws clean (codes "out") (codes "w") (codes "abc") layer

decode_again_example :
    let t = (decode disk clean (codes "out") (codes "w") (codes "xyz") layer).0 in
    let next = decode disk t (codes "out") (codes "w") (codes "abc") layer in
    (next.1 ≡ up_to_date) × (next.0.0 (codes "out/w") ≡ some (codes "xyz"))
unfolding decode text_eq
decode_again_example =
    decode_again disk disk-Laws clean (codes "out") (codes "w") (codes "xyz") (codes "abc") layer
      (λ s k v. refl) refl refl refl
