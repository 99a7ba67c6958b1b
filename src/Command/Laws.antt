-- ===== src/Command/Laws.antt =====
-- The commands and responses as a whole: what one side builds and encodes the other side decodes.
use aeron_rs.Prelude.{
  ℕ, Bool, true, none, ◌-◌, ◌^◌, ◌≤◌, ◌<◌, ◌≡◌, refl, some, List, ◌++◌, arith, length, take,
  replicate, length-append, length-replicate, take-append, ltb, ltb-false, if◌then◌else◌, min,
}
use aeron_rs.Prelude.{ap, ◌∙◌, length-take}
use mathlib.Core.Path.{subst}
use aeron_rs.Command.{
  from_utf8, max_channel_uri_length, max_error_msg_length, add_publication_length,
  add_subscription_length, publication_ready_length, operation_error_length,
}
use aeron_rs.Command.AddPublication
use aeron_rs.Command.RemovePublication
use aeron_rs.Command.AddSubscription
use aeron_rs.Command.RemoveSubscription
use aeron_rs.Command.ClientKeepalive
use aeron_rs.Command.PublicationReady
use aeron_rs.Command.SubscriptionReady
use aeron_rs.Command.OperationError

-- In a buffer of at least 32 bytes each of the five records without a text, with fields in the
-- ranges of their types, is decoded as it was encoded.
pub records_roundtrip :
    (p : RemovePublication.RemovePublication) (s : RemoveSubscription.RemoveSubscription)
    (k : ClientKeepalive.ClientKeepalive) (r : PublicationReady.PublicationReady)
    (q : SubscriptionReady.SubscriptionReady) (buf : List ℕ)
    → RemovePublication.InRange p
    → RemoveSubscription.InRange s
    → ClientKeepalive.InRange k
    → PublicationReady.InRange r
    → SubscriptionReady.InRange q
    → publication_ready_length ≤ length buf
    → (RemovePublication.decode (RemovePublication.encode p buf).1 ≡ some p)
      × (RemoveSubscription.decode (RemoveSubscription.encode s buf).1 ≡ some s)
      × (ClientKeepalive.decode (ClientKeepalive.encode k buf).1 ≡ some k)
      × (PublicationReady.decode (PublicationReady.encode r buf).1 ≡ some r)
      × (SubscriptionReady.decode (SubscriptionReady.encode q buf).1 ≡ some q)
records_roundtrip p s k r q buf vp vs vk vr vq room = (
  (RemovePublication.decode-encode p buf vp (omega (arith, room))).1,
  (RemoveSubscription.decode-encode s buf vs (omega (arith, room))).1,
  (ClientKeepalive.decode-encode k buf vk (omega (arith, room))).1,
  (PublicationReady.decode-encode r buf vr (omega (arith, room))).1,
  (SubscriptionReady.decode-encode q buf vq (omega (arith, room))).1,
)

from_utf8_valid :
    (is_utf8 : List ℕ → Bool) (xs ys : List ℕ)
    → is_utf8 xs ≡ true
    → ys ≡ xs
    → from_utf8 is_utf8 ys ≡ some xs
from_utf8_valid is_utf8 xs ys h e = rw (e, h) refl

padded_length :
    (xs : List ℕ) (n : ℕ) → length xs ≤ n → length (xs ++ replicate (n - length xs) 0) ≡ n
padded_length xs n h = omega (
  arith,
  length-append xs (replicate (n - length xs) 0),
  length-replicate {A = ℕ} (n - length xs) 0,
)

-- A command to add a publication, with ids in the ranges of their types, is made for every
-- channel of at most 256 bytes of UTF-8; encoded into a buffer with room and decoded it is the same, and
-- gives back the channel.
pub add_publication_channel :
    (is_utf8 : List ℕ → Bool) (correlation_id client_id stream_id : ℕ) (channel buf : List ℕ)
    → correlation_id < 2 ^ 64
    → client_id < 2 ^ 64
    → stream_id < 2 ^ 32
    → length channel ≤ max_channel_uri_length
    → is_utf8 channel ≡ true
    → add_publication_length ≤ length buf
    → (h : AddPublication.AddPublication) × (AddPublication.from_channel correlation_id client_id
          stream_id channel
        ≡ some h)
      × (AddPublication.decode (AddPublication.encode h buf).1 ≡ some h)
      × (AddPublication.channel_str is_utf8 h ≡ some channel)
unfolding AddPublication.from_channel
add_publication_channel is_utf8 correlation_id client_id stream_id channel buf a b c fits text
      room =
    let h : AddPublication.AddPublication = record {
      correlation_id = correlation_id;
      client_id = client_id;
      stream_id = stream_id;
      channel_uri_len = length channel;
      channel_uri = channel ++ replicate (max_channel_uri_length - length channel) 0;
    } in
    let v : AddPublication.InRange h = record {
      correlation_id = a;
      client_id = b;
      stream_id = c;
      channel_uri_len = fits;
      channel_uri = padded_length channel max_channel_uri_length fits;
    } in
    (
      h,
      simp (ltb-false max_channel_uri_length (length channel) fits) refl,
      (AddPublication.decode-encode h buf v room).1,
      from_utf8_valid is_utf8 channel _ text
          (take-append channel (replicate (max_channel_uri_length - length channel) 0) refl),
    )

-- A command to add a subscription, with ids in the ranges of their types, is made for every
-- channel of at most 256 bytes of UTF-8; encoded into a buffer with room and decoded it is the same, and
-- gives back the channel.
pub add_subscription_channel :
    (is_utf8 : List ℕ → Bool) (correlation_id client_id stream_id : ℕ) (channel buf : List ℕ)
    → correlation_id < 2 ^ 64
    → client_id < 2 ^ 64
    → stream_id < 2 ^ 32
    → length channel ≤ max_channel_uri_length
    → is_utf8 channel ≡ true
    → add_subscription_length ≤ length buf
    → (h : AddSubscription.AddSubscription) × (AddSubscription.from_channel correlation_id client_id
          stream_id channel
        ≡ some h)
      × (AddSubscription.decode (AddSubscription.encode h buf).1 ≡ some h)
      × (AddSubscription.channel_str is_utf8 h ≡ some channel)
unfolding AddSubscription.from_channel
add_subscription_channel is_utf8 correlation_id client_id stream_id channel buf a b c fits text
      room =
    let h : AddSubscription.AddSubscription = record {
      correlation_id = correlation_id;
      client_id = client_id;
      stream_id = stream_id;
      channel_uri_len = length channel;
      channel_uri = channel ++ replicate (max_channel_uri_length - length channel) 0;
    } in
    let v : AddSubscription.InRange h = record {
      correlation_id = a;
      client_id = b;
      stream_id = c;
      channel_uri_len = fits;
      channel_uri = padded_length channel max_channel_uri_length fits;
    } in
    (
      h,
      simp (ltb-false max_channel_uri_length (length channel) fits) refl,
      (AddSubscription.decode-encode h buf v room).1,
      from_utf8_valid is_utf8 channel _ text
          (take-append channel (replicate (max_channel_uri_length - length channel) 0) refl),
    )

-- The cut of `from_message`.
message_cut : (n m : ℕ) → (if ltb m n then m else n) ≡ min n m
message_cut n m = ground arith

-- An error response, with numbers in the ranges of their types, cuts its message to 256 bytes;
-- encoded into a buffer with room and decoded it is the same, and gives back the message as it
-- was cut, if what was cut is UTF-8, and no message if it is not.
pub operation_error_message :
    (is_utf8 : List ℕ → Bool) (correlation_id error_code : ℕ) (msg buf : List ℕ)
    → correlation_id < 2 ^ 64
    → error_code < 2 ^ 32
    → operation_error_length ≤ length buf
    → let h = OperationError.from_message correlation_id error_code msg in
      (h.error_msg_len ≡ min (length msg) max_error_msg_length)
      × (OperationError.decode (OperationError.encode h buf).1 ≡ some h)
      × (OperationError.error_str is_utf8 h ≡ (
          let cut = take (min (length msg) max_error_msg_length) msg in
          if is_utf8 cut then some cut else none))
unfolding OperationError.from_message
operation_error_message is_utf8 correlation_id error_code msg buf a b room =
    let h : OperationError.OperationError =
      OperationError.from_message correlation_id error_code msg in
    let e : h.error_msg_len ≡ min (length msg) max_error_msg_length =
      message_cut (length msg) max_error_msg_length in
    let t : length (take h.error_msg_len msg) ≡ h.error_msg_len =
      length-take h.error_msg_len msg (omega (arith, e)) in
    let v : OperationError.InRange h = record {
      correlation_id = a;
      error_code = b;
      error_msg_len = omega (arith, e);
      error_msg =
          subst
            (λ n.
              length (take h.error_msg_len msg ++ replicate (max_error_msg_length - n) 0)
              ≡ max_error_msg_length)
            t (padded_length (take h.error_msg_len msg) max_error_msg_length (omega (arith, t, e)));
    } in
    (
      e,
      (OperationError.decode-encode h buf v room).1,
      ap (from_utf8 is_utf8) (
          take-append (take h.error_msg_len msg)
            (replicate (max_error_msg_length - h.error_msg_len) 0) t
          ∙ ap (λ n. take n msg) e),
    )
