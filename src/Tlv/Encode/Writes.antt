-- ===== src/Tlv/Encode/Writes.antt =====
-- Fields that are encoded to the wires of a sequence of elements.
use containernet_ndn_dpdk.Shared.{
  ℕ, ◌^◌, ◌<◌, ◌≡◌, refl, sym, ap, ◌∙◌, Bool, true, false, List, [], ◌∷◌, ◌++◌, append-nil,
  append_assoc, arith, if◌then◌else◌, length, ok-injective, Result, ok, err, panic, ◌>>=◌,
}
use containernet_ndn_dpdk.Tlv.Nni
use containernet_ndn_dpdk.Tlv.Nni.RoundTrip
use containernet_ndn_dpdk.Tlv.Element.{Element, bad_type}
use containernet_ndn_dpdk.Tlv.Element.Wire.{wire_of, IsElement}
use containernet_ndn_dpdk.Tlv.Decode.RoundTrip.{encoding_of}
use containernet_ndn_dpdk.Tlv.Decode.Each.{put_elem}
use containernet_ndn_dpdk.Tlv.Encode.{
  Field, Fields, nil, cons, one, bytes, join, encode, encode_subs, tlv, tlv_from, tlv_bytes,
  tlv_nni, encode_all, encode_value_only,
}
use containernet_ndn_dpdk.Tlv.Encode.Wire.{tlv_wire, tlv_from_lem, encode_value_only-tlv}
use containernet_ndn_dpdk.Tlv.Encode.Buffer.{
  encode_subs-cons, encode_subs-nil, encode-tlv_nni, encode_all_lem,
}

abbrev pub tlv_of : ℕ → List ℕ → Element
tlv_of typ v = record { typ = typ; value = v }

abbrev pub nni_of : ℕ → ℕ → Element
nni_of typ n = tlv_of typ (Nni.encode n [])

-- The field is encoded to the element.
abbrev pub Makes : Field → Element → Type 0
Makes f e = encode f [] ≡ ok (wire_of e)

-- The fields are encoded to these bytes.
abbrev pub Joins : Fields → List ℕ → Type 0
Joins fs v = (encode_subs fs >>= λ parts. ok (join parts)) ≡ ok v

pub Joins-nil : Joins nil []
Joins-nil = rw encode_subs-nil

join_first :
    (w : List ℕ) (r : Result (List (List ℕ))) {v : List ℕ}
    → (r >>= λ parts. ok (join parts)) ≡ ok v
    → ((r >>= λ parts. ok (w ∷ parts)) >>= λ parts. ok (join parts)) ≡ ok (w ++ v)
join_first w (ok parts) e = ap (λ t. ok (w ++ t)) (ok-injective e)
join_first w (err x) e = cc
join_first w panic e = cc

pub Joins-cons :
    (f : Field) (fs : Fields) (w v : List ℕ)
    → encode f [] ≡ ok w
    → Joins fs v
    → Joins (cons f fs) (w ++ v)
Joins-cons f fs w v h k = rw (encode_subs-cons f fs, h) (join_first w (encode_subs fs) k)

-- A field that is there under a condition.
abbrev pub put_field : Bool → Field → Fields → Fields
put_field b f fs = if b then cons f fs else fs

pub Joins-put_field :
    (b : Bool) (f : Field) (e : Element) (fs : Fields) (es : List Element)
    → (b ≡ true → Makes f e)
    → Joins fs (encoding_of es [])
    → Joins (put_field b f fs) (encoding_of (put_elem b e es) [])
Joins-put_field true f e fs es h k = Joins-cons f fs (wire_of e) (encoding_of es []) (h refl) k
Joins-put_field false f e fs es h k = k

pub encode_all-Joins : (fs : Fields) (v : List ℕ) → Joins fs v → encode_all fs ≡ ok v
encode_all-Joins fs v h = encode_all_lem fs ∙ h

pub value-Joins :
    (typ : ℕ) (fs : Fields) (v : List ℕ)
    → bad_type typ ≡ false
    → Joins fs v
    → encode_value_only (tlv typ fs) ≡ ok v
value-Joins typ fs v good h = encode_value_only-tlv typ fs good ∙ h

pub Makes-tlv :
    (typ : ℕ) (fs : Fields) (v : List ℕ)
    → bad_type typ ≡ false
    → Joins fs v
    → Makes (tlv typ fs) (tlv_of typ v)
Makes-tlv typ fs v good h = tlv_wire typ fs ∙ rw (value-Joins typ fs v good h)

pub Makes-tlv_from :
    (typ : ℕ) (fs : Fields) (v : List ℕ)
    → bad_type typ ≡ false
    → Joins fs v
    → Makes (tlv_from typ fs) (tlv_of typ v)
Makes-tlv_from typ fs v good h = tlv_from_lem typ fs ∙ Makes-tlv typ fs v good h

pub Makes-tlv_nni : (typ n : ℕ) → bad_type typ ≡ false → Makes (tlv_nni typ n) (nni_of typ n)
Makes-tlv_nni typ n good = encode-tlv_nni typ n good

pub encode-bytes : (v : List ℕ) → encode (bytes v) [] ≡ ok v
unfolding encode
encode-bytes v = refl

pub Makes-tlv_bytes :
    (typ : ℕ) (v : List ℕ) → bad_type typ ≡ false → Makes (tlv_bytes typ v) (tlv_of typ v)
unfolding tlv_bytes
Makes-tlv_bytes typ v good =
    Makes-tlv typ (one (bytes v)) v good
      (rw (encode_subs-cons (bytes v) nil, encode-bytes v, encode_subs-nil) (ap ok (append-nil v)))

pub nni_of-IsElement : (typ n : ℕ) → bad_type typ ≡ false → IsElement (nni_of typ n)
nni_of-IsElement typ n good = record {
  typ_low = ground arith;
  typ_high = ground arith;
  fits = omega (arith, RoundTrip.length-encode n, RoundTrip.size-le n);
}

pub tlv_of-IsElement :
    (typ : ℕ) (v : List ℕ) → bad_type typ ≡ false → length v < 2 ^ 63 → IsElement (tlv_of typ v)
tlv_of-IsElement typ v good short = record {
  typ_low = ground arith;
  typ_high = ground arith;
  fits = short;
}

-- More elements behind those that are there.
pub encoding_of-put_elem :
    (b : Bool) (e : Element) (es more : List Element) (t : List ℕ)
    → encoding_of more [] ≡ encoding_of es [] ++ t
    → encoding_of (put_elem b e more) [] ≡ encoding_of (put_elem b e es) [] ++ t
encoding_of-put_elem true e es more t h =
    rw h (sym (append_assoc (wire_of e) (encoding_of es []) t))
encoding_of-put_elem false e es more t h = h

pub encoding_of-cons :
    (e : Element) (es more : List Element) (t : List ℕ)
    → encoding_of more [] ≡ encoding_of es [] ++ t
    → encoding_of (e ∷ more) [] ≡ encoding_of (e ∷ es) [] ++ t
encoding_of-cons e es more t h = encoding_of-put_elem true e es more t h

pub value_from-Joins :
    (typ : ℕ) (fs : Fields) (v : List ℕ)
    → bad_type typ ≡ false
    → Joins fs v
    → encode_value_only (tlv_from typ fs) ≡ ok v
unfolding encode_value_only tlv tlv_from encode
value_from-Joins typ fs v good h = same_value ∙ value-Joins typ fs v good h
  where
    same_value : encode_value_only (tlv_from typ fs) ≡ encode_value_only (tlv typ fs)
    same_value = rw good
