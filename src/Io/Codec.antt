-- ===== src/Io/Codec.antt =====
-- Round trips of writers and readers, and the rules that put them together. A command's reader makes
-- the calls of its writer in the same order, so its round trip is an application of these rules.
-- The write that a value has is total under the value's conditions, and the read takes exactly the
-- bytes that were written, wherever in a buffer they stand.
use jdwpy.Prelude.{
  All, All-map, List, [], append-nil, append_assoc, length, none, ℕ, ◌++◌, ◌∙◌, ◌∷◌, ◌≡◌,
}
use jdwpy.Prelude.Int.{pos}
use jdwpy.Struct.{Result, ok}
use jdwpy.Spec.{IdSizesSpec}
use jdwpy.Io.{
  JdwpReader, JdwpWriter, Platform, Read, Write, for_each, lift, read_list, read_times, return,
  skip, ◌>>=◌, ◌>>◌,
}

-- A writer with the buffer.
abbrev pub writer : IdSizesSpec → List ℕ → JdwpWriter
writer s out = record { spec = s; buffer = out }

-- A reader that has read the bytes in front and not the rest.
abbrev pub cursor : IdSizesSpec → List ℕ → List ℕ → JdwpReader
cursor s front rest = record {
  buffer = front ++ rest;
  spec = s;
  offset = pos (length front);
  array_element_tag = none;
}

-- `w` appends the bytes, whatever was written before.
pub record Writes (p : Platform) (s : IdSizesSpec) (w : Write) (bytes : List ℕ) : Type 0 where
  pub appends : (out : List ℕ) → w p (writer s out) ≡ ok (writer s (out ++ bytes))

-- `r` takes the bytes and gives `v`, whatever stands in front of them and behind.
pub record Reads {A : Type 0} (p : Platform) (s : IdSizesSpec) (r : Read A) (bytes : List ℕ) (v : A)
    : Type 0 where
  pub takes :
      (front rest : List ℕ)
      → r p (cursor s front (bytes ++ rest)) ≡ ok (v, cursor s (front ++ bytes) rest)

pub record RoundTrip {A : Type 0} (p : Platform) (s : IdSizesSpec) (w : Write) (r : Read A) (v : A)
    : Type 0 where
  pub bytes : List ℕ
  pub writes : Writes p s w bytes
  pub reads : Reads p s r bytes v

module _ {p : Platform} {A B : Type 0} where
  pub >>=-ok :
      (m : Read A) (f : A → Read B) {rd rd' : JdwpReader} {a : A}
      → m p rd ≡ ok (a, rd')
      → (m >>= f) p rd ≡ f a p rd'
  unfolding ◌>>=◌
  >>=-ok m f e = rw (◌>>=◌, e)

module _ {p : Platform} {s : IdSizesSpec} where
  Writes-seq :
      (v w : Write) (xs ys : List ℕ)
      → Writes p s v xs
      → Writes p s w ys
      → Writes p s (v >> w) (xs ++ ys)
  unfolding ◌>>◌
  Writes-seq v w xs ys hv hw = record {
    appends = λ out. rw (◌>>◌, hv.appends out, hw.appends (out ++ xs), append_assoc out xs ys);
  }

  Reads-bind :
      {A B : Type 0} (r : Read A) (k : A → Read B) (xs ys : List ℕ) (a : A) (b : B)
      → Reads p s r xs a
      → Reads p s (k a) ys b
      → Reads p s (r >>= k) (xs ++ ys) b
  Reads-bind r k xs ys a b hr hk = record {
    takes = λ front rest. rw (append_assoc xs ys rest) (
        >>=-ok r k (hr.takes front (ys ++ rest))
        ∙ hk.takes (front ++ xs) rest
        ∙ rw (append_assoc front xs ys));
  }

  -- A write and then others; a read and then others that know its value.
  pub RoundTrip-seq :
      {A B : Type 0} {v w : Write} {r : Read A} (k : A → Read B) {a : A} {b : B}
      → RoundTrip p s v r a
      → RoundTrip p s w (k a) b
      → RoundTrip p s (v >> w) (r >>= k) b
  RoundTrip-seq {v = v} {w = w} {r = r} k {a = a} {b = b} h l = record {
    bytes = h.bytes ++ l.bytes;
    writes = Writes-seq v w h.bytes l.bytes h.writes l.writes;
    reads = Reads-bind r k h.bytes l.bytes a b h.reads l.reads;
  }

  pub RoundTrip-return : {A : Type 0} (a : A) → RoundTrip p s skip (return a) a
  unfolding skip return
  RoundTrip-return a = record {
    bytes = [];
    writes = record { appends = λ out. rw append-nil };
    reads = record { takes = λ front rest. rw append-nil };
  }

  -- A read that takes no bytes, and then others that know its value.
  pub RoundTrip-peek :
      {A B : Type 0} {w : Write} {r : Read A} (k : A → Read B) {a : A} {b : B}
      → RoundTrip p s skip r a
      → RoundTrip p s w (k a) b
      → RoundTrip p s w (r >>= k) b
  unfolding ◌>>◌ skip
  RoundTrip-peek k h l =
      let both = RoundTrip-seq k h l in
      record {
        bytes = both.bytes;
        writes = record { appends = both.writes.appends };
        reads = both.reads;
      }

  -- The last write, whose value goes into the result.
  pub RoundTrip-last :
      {A B : Type 0} {w : Write} {r : Read A} {a : A} (f : A → B)
      → RoundTrip p s w r a
      → RoundTrip p s w (r >>= λ x. return (f x)) (f a)
  unfolding return
  RoundTrip-last {r = r} f h = record {
    bytes = h.bytes;
    writes = h.writes;
    reads = record { takes = λ front rest. >>=-ok r _ (h.reads.takes front rest) };
  }

  -- A value that is computed from what was read.
  pub RoundTrip-lift :
      {A B : Type 0} {w : Write} {r : Read A} {a : A} (f : A → Result B) (b : B)
      → RoundTrip p s w r a
      → f a ≡ ok b
      → RoundTrip p s w (r >>= λ x. lift (f x)) b
  unfolding lift
  RoundTrip-lift {r = r} f b h e = record {
    bytes = h.bytes;
    writes = h.writes;
    reads = record { takes = λ front rest. >>=-ok r _ (h.reads.takes front rest) ∙ rw (e, lift) };
  }

  RoundTrip-times :
      {A : Type 0} (w : A → Write) (r : Read A) (xs : List A)
      → All (λ x. RoundTrip p s (w x) r x) xs
      → RoundTrip p s (for_each xs w) (read_times (length xs) r) xs
  unfolding for_each read_times
  RoundTrip-times w r [] h = RoundTrip-return []
  RoundTrip-times w r (x ∷ xs) h =
      RoundTrip-seq _ h.0 (RoundTrip-last (λ ys. x ∷ ys) (RoundTrip-times w r xs h.1))

  -- The loop over a list and the comprehension over its length.
  pub RoundTrip-list :
      {A : Type 0} (w : A → Write) (r : Read A) (xs : List A)
      → All (λ x. RoundTrip p s (w x) r x) xs
      → RoundTrip p s (for_each xs w) (read_list (pos (length xs)) r) xs
  unfolding read_list
  RoundTrip-list w r xs h = RoundTrip-times w r xs h

  -- The same, for elements that meet a condition.
  pub RoundTrip-All :
      {A : Type 0} (w : A → Write) (r : Read A) (P : A → Type 0) (xs : List A)
      → ((x : A) → P x → RoundTrip p s (w x) r x)
      → All P xs
      → RoundTrip p s (for_each xs w) (read_list (pos (length xs)) r) xs
  RoundTrip-All w r P xs each h =
      RoundTrip-list w r xs (All-map P (λ x. RoundTrip p s (w x) r x) xs each h)
