-- ===== src/Command/OperationError.antt =====
-- `OperationError`.
use aeron_rs.Prelude.{
  ℕ, Bool, ◌-◌, ◌^◌, ◌≤◌, ◌<◌, ◌≡◌, refl, Option, none, some, List, ◌++◌, arith, ltb, if◌then◌else◌,
  length, take, drop, replicate, length-append, take-append, ap, ltb-false,
}
use aeron_rs.Prelude.Word.{sign_extend}
use aeron_rs.Prelude.Memory.{le_bytes, of_le-le_bytes_4, of_le-le_bytes_8, sign_extend-of_le}
use aeron_rs.Command.{from_utf8, field, operation_error_length, max_error_msg_length}

pub record OperationError : Type 0 where
  pub correlation_id : ℕ
  pub error_code : ℕ
  pub error_msg_len : ℕ
  pub error_msg : List ℕ

abbrev pub overlay : List ℕ → OperationError
overlay buf = record {
  correlation_id = field buf 0 8;
  error_code = field buf 8 4;
  error_msg_len = sign_extend (field buf 12 4);
  error_msg = take max_error_msg_length (drop 16 buf);
}

abbrev pub bytes : OperationError → List ℕ
bytes h =
    le_bytes 8 h.correlation_id
    ++ (le_bytes 4 h.error_code ++ (le_bytes 4 h.error_msg_len ++ (h.error_msg)))

pub encode : OperationError → List ℕ → Option ℕ × List ℕ
encode h buf =
    if ltb (length buf) operation_error_length
    then (none, buf)
    else (some operation_error_length, bytes h ++ drop operation_error_length buf)

pub decode : List ℕ → Option OperationError
decode buf =
    if ltb (length buf) operation_error_length
    then none
    else if ltb max_error_msg_length (overlay buf).error_msg_len
    then none
    else some (overlay buf)

abbrev pub error_str : (List ℕ → Bool) → OperationError → Option (List ℕ)
error_str is_utf8 h = from_utf8 is_utf8 (take h.error_msg_len h.error_msg)

unfoldable pub from_message : ℕ → ℕ → List ℕ → OperationError
from_message correlation_id error_code msg =
    let len = if ltb max_error_msg_length (length msg) then max_error_msg_length else length msg in
    record {
      correlation_id = correlation_id;
      error_code = error_code;
      error_msg_len = len;
      error_msg = take len msg ++ replicate (max_error_msg_length - len) 0;
    }

-- The fields are values of their types, and a length is that of its text.
pub record InRange (h : OperationError) : Type 0 where
  pub correlation_id : h.correlation_id < 2 ^ 64
  pub error_code : h.error_code < 2 ^ 32
  pub error_msg_len : h.error_msg_len ≤ max_error_msg_length
  pub error_msg : length h.error_msg ≡ max_error_msg_length

overlay-bytes : (h : OperationError) (rest : List ℕ) → InRange h → overlay (bytes h ++ rest) ≡ h
overlay-bytes h rest v = λ i. record {
  correlation_id = of_le-le_bytes_8 _ v.correlation_id i;
  error_code = of_le-le_bytes_4 _ v.error_code i;
  error_msg_len = sign_extend-of_le h.error_msg_len (omega (arith, v.error_msg_len)) i;
  error_msg = take-append h.error_msg rest v.error_msg i;
}

decode_room :
    (h : OperationError) (buf : List ℕ)
    → overlay buf ≡ h
    → operation_error_length ≤ length buf
    → h.error_msg_len ≤ max_error_msg_length
    → decode buf ≡ some h
unfolding decode
decode_room h buf e room fits =
    let r = ltb-false (length buf) operation_error_length room in
    let q =
      ltb-false max_error_msg_length (overlay buf).error_msg_len
        (omega (arith, ap (λ x. x.error_msg_len) e, fits)) in
    simp (r, q) (ap some e)

-- What is encoded is decoded.
pub decode-encode :
    (h : OperationError) (buf : List ℕ)
    → InRange h
    → operation_error_length ≤ length buf
    → ((encode h buf).0 ≡ some operation_error_length) × (decode (encode h buf).1 ≡ some h)
unfolding encode
decode-encode h buf v room =
    let e : overlay (bytes h ++ drop operation_error_length buf) ≡ h =
      overlay-bytes h (drop operation_error_length buf) v in
    simp (ltb-false (length buf) operation_error_length room) (
      refl,
      decode_room h (bytes h ++ drop operation_error_length buf) e
          (omega (arith, length-append h.error_msg (drop operation_error_length buf), v.error_msg))
          v.error_msg_len,
    )
