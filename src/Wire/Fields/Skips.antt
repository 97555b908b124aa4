-- ===== src/Wire/Fields/Skips.antt =====
-- types/types.pb.go: skipTypes on any bytes.
use coded_hotterstuff.Wire.Fields.Yields.{
  take_bytes-Yields, length-take-drop, Parts, read_varint-Yields, IsNumber, Yields-if, Within,
  Yields-bind, Yields,
}
use coded_hotterstuff.Prelude.{ℕ, zero, suc, ◌<◌, ◌≤◌, ltb, ◌==◌, [], ◌∷◌, length, arith}
use coded_hotterstuff.Prelude.Bytes.{Bytes}
use coded_hotterstuff.Wire.Varint.{ok, read_varint}
use coded_hotterstuff.Wire.Fields.{
  wire_type, take_bytes, skip_bytes, skip_value, skip_loop, skip_field,
}

abbrev Shorter : ℕ → Bytes → Type 0
Shorter n bs = length bs ≤ n

skip_bytes-Yields : (n : ℕ) (bs : Bytes) → Yields (Shorter (length bs)) (skip_bytes n bs)
unfolding skip_bytes
skip_bytes-Yields n bs =
    Yields-if (Shorter (length bs)) (ltb (length bs) n) _ _ (λ p. cc p)
      (omega (arith, length-take-drop n bs))

skip_value-Yields :
    (l depth wt : ℕ) (bs : Bytes) → Yields (Within (length bs)) (skip_value l depth wt bs)
unfolding skip_value
skip_value-Yields l depth wt bs =
    let P = Within {A = ℕ} (length bs) in
    Yields-if P (wt == 0) _ _
      (Yields-bind (IsNumber (length bs)) P (read_varint bs) _ (read_varint-Yields bs)
        λ p h. omega (arith, h.1))
      (Yields-if P (wt == 1) _ _
        (Yields-bind (Shorter (length bs)) P (skip_bytes 8 bs) _ (skip_bytes-Yields 8 bs) λ r h. h)
        (Yields-if P (wt == 2) _ _
          (Yields-bind (IsNumber (length bs)) P (read_varint bs) _ (read_varint-Yields bs) λ p h.
            Yields-bind (Parts (length p.1)) P (take_bytes l p.0 p.1) _
              (take_bytes-Yields l p.0 p.1) λ q k. omega (arith, h.1, k))
          (Yields-if P (wt == 3) _ _ (omega arith) (
            Yields-if P (wt == 4) _ _ (Yields-if P (depth == 0) _ _ (λ p. cc p) (omega arith)) (
              Yields-if P (wt == 5) _ _
                (Yields-bind (Shorter (length bs)) P (skip_bytes 4 bs) _ (skip_bytes-Yields 4 bs)
                  λ r h. h)
                (λ p. cc p))))))

abbrev pub Less : ℕ → Bytes → Type 0
Less n bs = length bs < n

skip_loop-Yields :
    (fuel l depth : ℕ) (bs : Bytes) (n : ℕ)
    → length bs ≤ fuel
    → length bs ≤ n
    → Yields (Less n) (skip_loop fuel l depth bs)
unfolding skip_loop
skip_loop-Yields fuel l depth [] n h k = λ p. cc p
skip_loop-Yields zero l depth (b ∷ bs) n h k = absurd (omega arith)
skip_loop-Yields (suc fuel) l depth (b ∷ bs) n h k =
    Yields-bind (IsNumber (length (b ∷ bs))) (Less n) (read_varint (b ∷ bs)) _
      (read_varint-Yields (b ∷ bs))
      λ p q.
        Yields-bind (Within (length p.1)) (Less n) (skip_value l depth (wire_type p.0) p.1) _
          (skip_value-Yields l depth (wire_type p.0) p.1)
          λ r s. further r.0 r.1 (omega (arith, q.1, s)) (λ open_groups.
            skip_loop-Yields fuel l (suc open_groups) r.1 n (omega (arith, q.1, s))
              (omega (arith, q.1, s)))
  where
    further :
        (depth' : ℕ) (rest : Bytes)
        → length rest < n
        → ((open_groups : ℕ) → Yields (Less n) (skip_loop fuel l (suc open_groups) rest))
        → Yields (Less n) (elim depth' [
          | zero ↦ ok rest
          | suc open_groups ↦ skip_loop fuel l (suc open_groups) rest
        ])
    further zero rest h k = h
    further (suc open_groups) rest h k = k open_groups

pub skip_field-Yields : (l : ℕ) (bs : Bytes) → Yields (Less (length bs)) (skip_field l bs)
unfolding skip_field
skip_field-Yields l bs = skip_loop-Yields (length bs) l 0 bs (length bs) (omega arith) (omega arith)
