-- ===== src/RoundTrip/Protocol.antt =====
-- The fields of lib/amqp-definitions-0-9-1.js: what lib/serializer.js and lib/parser.js rely on.
use node_amqp.Prelude.{
  ℕ, suc, ◌≤◌, ◌≡◌, refl, arith, Bool, true, ◌&&◌, leb, leb→le, List, [], ◌∷◌, All, length,
  if◌then◌else◌,
}
use node_amqp.Values.{Value, boolean}
use node_amqp.Definitions.Info.{Domain, Field, MethodInfo, ClassInfo, bit}
use node_amqp.Definitions.Protocol.{protocol_classes}
use node_amqp.Serializer.Fields.{is_bit}
use node_amqp.RoundTrip.Bits.{&&_left, &&_right}
use node_amqp.RoundTrip.Octets.{run, run_head, AreShort}

-- How many bits a list of fields starts with.
abbrev bits_ahead : List Field → ℕ
bits_ahead [] = 0
bits_ahead (f ∷ fs) = if is_bit f.domain then suc (bits_ahead fs) else 0

length-run_head :
    {D : Type 0} (d : Domain) (v : Value D) (bs : List Bool) (n : ℕ)
    → length bs ≤ n
    → length (run_head d v bs) ≤ (if is_bit d then suc n else 0)
length-run_head bit (boolean x) bs n l = omega arith
length-run_head bit _ bs n l = omega arith
length-run_head _ v bs n l = omega arith

length-run :
    {D : Type 0} (fs : List Field) (vs : List (Value D)) → length (run fs vs) ≤ bits_ahead fs
length-run [] vs = omega arith
length-run (f ∷ fs) [] = omega arith
length-run (f ∷ fs) (v ∷ vs) = length-run_head f.domain v (run fs vs) _ (length-run fs vs)

fits : List Field → Bool
fits [] = true
fits (f ∷ fs) = leb (bits_ahead (f ∷ fs)) 8 && fits fs

fits-AreShort :
    {D : Type 0} (fs : List Field) (vs : List (Value D)) → fits fs ≡ true → AreShort fs vs
unfolding fits
fits-AreShort [] vs h = tt
fits-AreShort (f ∷ fs) [] h = tt
fits-AreShort (f ∷ fs) (v ∷ vs) h =
    let few = length-run (f ∷ fs) (v ∷ vs) in
    let eight = leb→le (bits_ahead (f ∷ fs)) 8 (&&_left _ _ h) in
    (omega (arith, few, eight), fits-AreShort fs vs (&&_right _ _ h))

-- Indices of two bytes, and fields that fit.
methods_fit : List MethodInfo → Bool
unfolding fits
methods_fit [] = true
methods_fit (m ∷ ms) = (leb m.index 0xffff && fits m.fields) && methods_fit ms

classes_fit : List ClassInfo → Bool
unfolding methods_fit
classes_fit [] = true
classes_fit (c ∷ cs) =
    ((leb c.index 0xffff && leb (length c.fields) 14) && methods_fit c.methods) && classes_fit cs

protocol_fits : classes_fit protocol_classes ≡ true
unfolding classes_fit
protocol_fits = refl

-- What the wire asks of a method, and of a class.
abbrev pub MethodFits : MethodInfo → Type 1
MethodFits m = (m.index ≤ 0xffff) × ((D : Type 0) (vs : List (Value D)) → AreShort m.fields vs)

abbrev pub ClassFits : ClassInfo → Type 1
ClassFits c = (c.index ≤ 0xffff) × (length c.fields ≤ 14) × All MethodFits c.methods

methods_fit-MethodFits : (ms : List MethodInfo) → methods_fit ms ≡ true → All MethodFits ms
unfolding methods_fit
methods_fit-MethodFits [] h = tt
methods_fit-MethodFits (m ∷ ms) h = (
  (
    leb→le m.index 0xffff (&&_left _ _ (&&_left _ _ h)),
    λ D vs. fits-AreShort m.fields vs (&&_right _ _ (&&_left _ _ h)),
  ),
  methods_fit-MethodFits ms (&&_right _ _ h),
)

classes_fit-ClassFits : (cs : List ClassInfo) → classes_fit cs ≡ true → All ClassFits cs
unfolding classes_fit
classes_fit-ClassFits [] h = tt
classes_fit-ClassFits (c ∷ cs) h =
    let first = &&_left _ (classes_fit cs) h in
    let numbers = &&_left _ (methods_fit c.methods) first in
    (
      (
        leb→le c.index 0xffff (&&_left _ _ numbers),
        leb→le (length c.fields) 14 (&&_right _ _ numbers),
        methods_fit-MethodFits c.methods (&&_right _ _ first),
      ),
      classes_fit-ClassFits cs (&&_right _ _ h),
    )

-- Every class of the protocol has an index of two bytes and at most 14 fields, and every method of it an
-- index of two bytes and, whatever the values of its fields, at most eight bits in a row.
pub protocol_classes-ClassFits : All ClassFits protocol_classes
protocol_classes-ClassFits = classes_fit-ClassFits protocol_classes protocol_fits
