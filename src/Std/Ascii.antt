-- ===== src/Std/Ascii.antt =====
-- A small standard library that keeps its promises, to run the model: no case beyond ASCII, every text
-- its own address, and a list of texts coded with a zero behind each.
use gmail_visibility_manager.Base.{
  ℕ, zero, suc, ◌++◌, ◌≡◌, refl, true, ap, List, [], ◌∷◌, ◌+◌, ◌&&◌, leb, eqb, map, if◌then◌else◌,
  not, is_empty, length, length-map, append_assoc, append-nil, arith,
}
use gmail_visibility_manager.Text.{Text, ◌==◌, ==_refl, ==_iff}
use gmail_visibility_manager.Result.{Result, ok, err}
use gmail_visibility_manager.Std.{Std, StdLaws, Json, str, strs, rune_lower}

abbrev ascii_lower : ℕ → ℕ
ascii_lower r = if leb b'A' r && leb r b'Z' then r + 32 else r

abbrev encode_items : List Text → Text
encode_items [] = []
encode_items (t ∷ ts) = map suc t ++ (0 ∷ encode_items ts)

abbrev decode_items : Text → Text → List Text
decode_items [] item = []
decode_items (zero ∷ s) item = item ∷ decode_items s []
decode_items (suc c ∷ s) item = decode_items s (item ++ c ∷ [])

abbrev decode : Text → Result (List Text)
decode [] = err []
decode (c ∷ s) = if eqb c b'[' then ok (decode_items s []) else err []

abbrev encode_field : Json → Text
encode_field (str t) = t
encode_field (strs ts) = encode_items ts

abbrev encode_object : List (Text × Json) → Text
encode_object [] = []
encode_object ((name, value) ∷ rest) =
    name ++ (0 ∷ (encode_field value ++ (0 ∷ encode_object rest)))

instance abbrev pub ascii_std : Std
ascii_std = record {
  unicode_lower = λ r. r;
  equal_fold = λ s t. map ascii_lower s == map ascii_lower t;
  parse_address = λ s. ok s;
  quote = λ s. b'"' ∷ (s ++ b'"' ∷ []);
  decimal = λ n. [];
  json_valid = λ s. not (is_empty s);
  is_rfc3339 = λ s. not (is_empty s);
  marshal_strings = λ ts. ok (b'[' ∷ encode_items ts);
  unmarshal_strings = decode;
  marshal_object = λ fields. ok (encode_object fields);
  sha256_hex = λ s. s;
}

decode_items-map :
    (t s item : Text) → decode_items (map suc t ++ (0 ∷ s)) item ≡ (item ++ t) ∷ decode_items s []
decode_items-map [] s item = rw append-nil
decode_items-map (c ∷ t) s item = rw (decode_items-map t s (item ++ c ∷ []), append_assoc)

decode_items-encode_items : (ts : List Text) → decode_items (encode_items ts) [] ≡ ts
decode_items-encode_items [] = refl
decode_items-encode_items (t ∷ ts) =
    rw (decode_items-map t (encode_items ts) [], decode_items-encode_items ts)

same_length : (s t : Text) → (map ascii_lower s == map ascii_lower t) ≡ true → length s ≡ length t
same_length s t h = cc (
  length-map ascii_lower s,
  length-map ascii_lower t,
  ap length ((==_iff (map ascii_lower s) (map ascii_lower t)).0 h),
)

pub ascii_laws : StdLaws ascii_std
unfolding rune_lower
ascii_laws = record {
  lower_idem = λ r h. ground arith;
  lower_space = λ r h. refl;
  lower_ascii = λ r h k. absurd (omega arith);
  equal_fold_refl = λ s. ==_refl (map ascii_lower s);
  equal_fold_length = same_length;
  address_lower = λ s a h. cc;
  strings_round_trip = λ ts. (encode_items ts, refl, ap ok (decode_items-encode_items ts));
}
