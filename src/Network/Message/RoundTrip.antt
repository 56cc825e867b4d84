-- ===== src/Network/Message/RoundTrip.antt =====
-- src/networkmessage.cpp: what is added to a message is read back by the matching reads.
use ot_tibia_teste.Common.{
  ℕ, ◌+◌, ◌^◌, ◌≤◌, ◌<◌, ◌≡◌, refl, sym, ap, ◌∙◌, List, [], ◌∷◌, arith, length, All,
}
use ot_tibia_teste.Geometry.Position.{Position, IsPosition}
use ot_tibia_teste.Network.Message.Fields.{
  IsWritten, Wrote, Reads, add-Wrote, add_byte-Wrote, append_bytes-Wrote, get-Reads, add_byte-Reads,
  append_bytes-Reads, Wrote-trans, Wrote-IsWritten, Reads-later,
}
use ot_tibia_teste.Network.Message.{
  Message, max_body_length, get_byte, get, get_string, get_position, add_byte, add, append_bytes,
  add_string, add_position,
}

-- The values that are added to messages: a byte, a number of so many bytes, a text, a position.
pub data Field : Type 0 where
  byte : ℕ → Field
  word : ℕ → ℕ → Field
  text : List ℕ → Field
  place : Position → Field

unfoldable pub size : Field → ℕ
size (byte v) = 1
size (word n v) = n
size (text s) = 2 + length s
size (place p) = 5

abbrev pub IsField : Field → Type 0
IsField (byte v) = v < 256
IsField (word n v) = v < 256 ^ n
IsField (text s) = length s ≤ 8192
IsField (place p) = IsPosition p

pub write : Field → Message → Message
write (byte v) m = add_byte v m
write (word n v) m = add n v m
write (text s) m = add_string s m
write (place p) m = add_position p m

under {ℓ} : {A : Type ℓ} → (A → Field) → A × Message → Field × Message
under f (a, m) = (f a, m)

-- The read that matches an addition.
pub read : Field → Message → Field × Message
unfolding under
read (byte v) m = under byte (get_byte m)
read (word n v) m = under (word n) (get n m)
read (text s) m = under text (get_string 0 m)
read (place p) m = under place (get_position m)

-- A field is written whole, and found again.
pub record Kept (f : Field) (m : Message) : Type 0 where
  pub wrote : Wrote (size f) m (write f m)
  pub reads : Reads (read f) f m.position (size f) (write f m)

module _ (m : Message) (w : IsWritten m) where
  byte-Kept : (v : ℕ) → m.position + 1 < max_body_length → Kept (byte v) m
  unfolding write read size
  byte-Kept v h = record {
    wrote = add_byte-Wrote m w v h;
    reads = λ m2 at agree room body. ap (under byte) (add_byte-Reads m v h m2 at agree room body);
  }

  word-Kept : (n v : ℕ) → m.position + n < max_body_length → v < 256 ^ n → Kept (word n v) m
  unfolding write read size
  word-Kept n v h small = record {
    wrote = add-Wrote m w n v h;
    reads = λ m2 at agree room body.
        ap (under (word n)) (get-Reads m n v h small m2 at agree room body);
  }

  add_string-eq :
      (s : List ℕ)
      → m.position + (2 + length s) < max_body_length
      → length s ≤ 8192
      → add_string s m ≡ append_bytes s (add 2 (length s) m)
  unfolding add_string
  add_string-eq s h small = ground arith

  string-Reads :
      (s : List ℕ) (m1 : Message)
      → m1 ≡ add 2 (length s) m
      → m.position + (2 + length s) < max_body_length
      → length s ≤ 8192
      → Wrote 2 m m1
      → Reads (get_string 0) s m.position (2 + length s) (append_bytes s m1)
  unfolding get_string
  string-Reads s m1 e h small first m2 at agree room body =
      let fits : m1.position + length s < max_body_length = omega (arith, first.moved) in
      let last : Wrote (length s) m1 (append_bytes s m1) =
        append_bytes-Wrote m1 (Wrote-IsWritten 2 m m1 first w) s fits in
      let len : Reads (get 2) (length s) m.position 2 m1 =
        rw e (get-Reads m 2 (length s) (omega arith) (omega arith)) in
      let got : get 2 m2 ≡ (length s, record m2 { position = m.position + 2 }) =
        Reads-later (get 2) (length s) m.position 2 (length s) m1 (append_bytes s m1) len
          first.moved last m2 at (λ i lo hi. agree i lo (omega arith)) (omega arith)
          (omega arith) in
      let rest =
        append_bytes-Reads m1 s fits (record m2 { position = m.position + 2 }) (sym first.moved)
          (λ i lo hi. agree i (omega (arith, first.moved)) (omega (arith, first.moved)))
          (omega (arith, first.moved)) (omega (arith, first.moved)) in
      rw got (rest ∙ ap (λ (p : ℕ). (s, record m2 { position = p })) (omega (arith, first.moved)))

  text-Kept :
      (s : List ℕ)
      → m.position + (2 + length s) < max_body_length
      → length s ≤ 8192
      → Kept (text s) m
  unfolding write read size
  text-Kept s h small =
      let m1 = add 2 (length s) m in
      let first : Wrote 2 m m1 = add-Wrote m w 2 (length s) (omega arith) in
      let last : Wrote (length s) m1 (append_bytes s m1) =
        append_bytes-Wrote m1 (Wrote-IsWritten 2 m m1 first w) s (omega (arith, first.moved)) in
      let e = add_string-eq s h small in
      record {
        wrote = rw e (Wrote-trans 2 (length s) m m1 (append_bytes s m1) first last);
        reads = λ m2 at agree room body. ap (under text) (
            string-Reads s m1 refl h small first m2 at
              (λ i lo hi. ap (λ (c : Message). c.buffer i) (sym e) ∙ agree i lo hi) room body);
      }

  place-Kept : (p : Position) → m.position + 5 < max_body_length → IsPosition p → Kept (place p) m
  unfolding write read size add_position get_position
  place-Kept p h v =
      let m1 = add 2 p.x m in
      let m2 = add 2 p.y m1 in
      let m3 = add_byte p.z m2 in
      let a : Wrote 2 m m1 = add-Wrote m w 2 p.x (omega arith) in
      let w1 = Wrote-IsWritten 2 m m1 a w in
      let b : Wrote 2 m1 m2 = add-Wrote m1 w1 2 p.y (omega (arith, a.moved)) in
      let w2 = Wrote-IsWritten 2 m1 m2 b w1 in
      let c : Wrote 1 m2 m3 = add_byte-Wrote m2 w2 p.z (omega (arith, a.moved, b.moved)) in
      let bc : Wrote 3 m1 m3 = Wrote-trans 2 1 m1 m2 m3 b c in
      let rx = get-Reads m 2 p.x (omega arith) (omega (arith, v.x_fits)) in
      let ry = get-Reads m1 2 p.y (omega (arith, a.moved)) (omega (arith, v.y_fits)) in
      let rz = add_byte-Reads m2 p.z (omega (arith, a.moved, b.moved)) in
      record {
        wrote = Wrote-trans 2 3 m m1 m3 a bc;
        reads = λ n at agree room body.
            let x =
              Reads-later (get 2) p.x m.position 2 3 m1 m3 rx a.moved bc n at
                (λ i lo hi. agree i lo (omega arith)) (omega arith) (omega arith) in
            let y =
              Reads-later (get 2) p.y m1.position 2 1 m2 m3 ry b.moved c
                (record n { position = m.position + 2 }) (sym a.moved)
                (λ i lo hi. agree i (omega (arith, a.moved)) (omega (arith, a.moved)))
                (omega (arith, a.moved)) (omega (arith, a.moved)) in
            let z =
              rz (record n { position = m1.position + 2 }) (sym b.moved)
                (λ i lo hi.
                  agree i (omega (arith, a.moved, b.moved)) (omega (arith, a.moved, b.moved)))
                (omega (arith, a.moved, b.moved)) (omega (arith, a.moved, b.moved)) in
            rw (x, y, z)
              (ap (λ (q : ℕ). (place p, record n { position = q }))
                (omega (arith, a.moved, b.moved)));
      }

  write-Kept : (f : Field) → m.position + size f < max_body_length → IsField f → Kept f m
  unfolding size
  write-Kept (byte v) h v_fits = byte-Kept v h
  write-Kept (word n v) h v_fits = word-Kept n v h v_fits
  write-Kept (text s) h v_fits = text-Kept s h v_fits
  write-Kept (place p) h v_fits = place-Kept p h v_fits

pub write_fields : List Field → Message → Message
write_fields [] m = m
write_fields (f ∷ fs) m = write_fields fs (write f m)

pub read_fields : List Field → Message → List Field × Message
read_fields [] m = ([], m)
read_fields (f ∷ fs) m = let (g, m1) = read f m in let (gs, m2) = read_fields fs m1 in (g ∷ gs, m2)

unfoldable pub total : List Field → ℕ
total [] = 0
total (f ∷ fs) = size f + total fs

record Copied (fs : List Field) (m : Message) : Type 0 where
  wrote : Wrote (total fs) m (write_fields fs m)
  reads : Reads (read_fields fs) fs m.position (total fs) (write_fields fs m)

write_fields-Copied :
    (fs : List Field) (m : Message)
    → IsWritten m
    → m.position + total fs < max_body_length
    → All IsField fs
    → Copied fs m
unfolding write_fields read_fields total
write_fields-Copied [] m w h v = record {
  wrote = record { moved = omega arith; longer = omega arith; below = λ i lo hi. refl };
  reads =
      λ m2 at agree room body. ap (λ (p : ℕ). ([], record m2 { position = p })) (omega (arith, at));
}
write_fields-Copied (f ∷ fs) m w h (v, vs) =
    let one : Kept f m = write-Kept m w f (omega arith) v in
    let m1 = write f m in
    let rest : Copied fs m1 =
      write_fields-Copied fs m1 (Wrote-IsWritten (size f) m m1 one.wrote w)
        (omega (arith, one.wrote.moved)) vs in
    record {
      wrote = Wrote-trans (size f) (total fs) m m1 (write_fields fs m1) one.wrote rest.wrote;
      reads = λ m2 at agree room body.
          let first =
            Reads-later (read f) f m.position (size f) (total fs) m1 (write_fields fs m1) one.reads
              one.wrote.moved rest.wrote m2 at (λ i lo hi. agree i lo (omega arith)) (omega arith)
              (omega arith) in
          let later =
            rest.reads (record m2 { position = m.position + size f }) (sym one.wrote.moved)
              (λ i lo hi. agree i (omega (arith, one.wrote.moved)) (omega (arith, one.wrote.moved)))
              (omega (arith, one.wrote.moved)) (omega (arith, one.wrote.moved)) in
          rw (first, later)
            (ap (λ (p : ℕ). (f ∷ fs, record m2 { position = p })) (omega (arith, one.wrote.moved)));
    }

-- Any sequence of bytes, numbers, texts and positions that fits the body of a message can be added
-- to it: the length grows by the size of the whole, the bytes before it are left alone, and when the
-- position is set back, the matching reads give the same values and leave the message as the last
-- addition left it. The values are in the range of their types, and texts have at most 8192 bytes.
pub read_fields-write_fields :
    (fs : List Field) (m : Message)
    → IsWritten m
    → m.position + total fs < max_body_length
    → All IsField fs
    → ((write_fields fs m).length ≡ m.length + total fs)
      × ((i : ℕ) → i < m.position → (write_fields fs m).buffer i ≡ m.buffer i)
      × (read_fields fs (record (write_fields fs m) { position = m.position })
          ≡ (fs, write_fields fs m))
read_fields-write_fields fs m w h v =
    let all : Copied fs m = write_fields-Copied fs m w h v in
    let m' : Message = write_fields fs m in
    let last : record m' { position = m.position + total fs } ≡ m' =
      ap (λ (p : ℕ). record m' { position = p }) (sym all.wrote.moved) in
    (
      all.wrote.longer,
      λ i hi. sym (all.wrote.below i (omega arith) hi),
      all.reads (record m' { position = m.position }) refl (λ i lo hi. refl)
            (omega (arith, all.wrote.longer)) h
          ∙ ap (λ (n : Message). (fs, n)) last,
    )
