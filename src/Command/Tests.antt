-- ===== src/Command/Tests.antt =====
-- The theorems on the commands at concrete inputs.
use aeron_rs.Prelude.{
  ℕ, Bool, true, leb, ◌&&◌, refl, ◌≡◌, some, List, [], ◌∷◌, arith, replicate, min,
}
use aeron_rs.Command.AddPublication
use aeron_rs.Command.RemovePublication
use aeron_rs.Command.AddSubscription
use aeron_rs.Command.RemoveSubscription
use aeron_rs.Command.ClientKeepalive
use aeron_rs.Command.PublicationReady
use aeron_rs.Command.SubscriptionReady
use aeron_rs.Command.OperationError
use aeron_rs.Command.Laws.{
  records_roundtrip, add_publication_channel, add_subscription_channel, operation_error_message,
}

abbrev buffer : List ℕ
buffer = replicate 300 0

-- One part of UTF-8: no byte is above 127.
abbrev ascii : List ℕ → Bool
ascii [] = true
ascii (b ∷ bs) = leb b 127 && ascii bs

abbrev channel : List ℕ
channel = 0x61 ∷ 0x65 ∷ 0x72 ∷ []

abbrev remove_publication : RemovePublication.RemovePublication
remove_publication = record { correlation_id = 1; client_id = 2; registration_id = 3 }

remove_publication-InRange : RemovePublication.InRange remove_publication
remove_publication-InRange = record {
  correlation_id = omega arith;
  client_id = omega arith;
  registration_id = omega arith;
}

abbrev remove_subscription : RemoveSubscription.RemoveSubscription
remove_subscription = record { correlation_id = 1; client_id = 2; registration_id = 3 }

remove_subscription-InRange : RemoveSubscription.InRange remove_subscription
remove_subscription-InRange = record {
  correlation_id = omega arith;
  client_id = omega arith;
  registration_id = omega arith;
}

abbrev client_keepalive : ClientKeepalive.ClientKeepalive
client_keepalive = record { correlation_id = 1; client_id = 2 }

client_keepalive-InRange : ClientKeepalive.InRange client_keepalive
client_keepalive-InRange = record { correlation_id = omega arith; client_id = omega arith }

abbrev publication_ready : PublicationReady.PublicationReady
publication_ready = record {
  correlation_id = 1;
  registration_id = 2;
  session_id = 3;
  stream_id = 4;
  position_limit_counter_id = 5;
  channel_status_indicator_id = 6;
}

publication_ready-InRange : PublicationReady.InRange publication_ready
publication_ready-InRange = record {
  correlation_id = omega arith;
  registration_id = omega arith;
  session_id = omega arith;
  stream_id = omega arith;
  position_limit_counter_id = omega arith;
  channel_status_indicator_id = omega arith;
}

abbrev subscription_ready : SubscriptionReady.SubscriptionReady
subscription_ready = record { correlation_id = 1; channel_status_indicator_id = 2 }

subscription_ready-InRange : SubscriptionReady.InRange subscription_ready
subscription_ready-InRange = record {
  correlation_id = omega arith;
  channel_status_indicator_id = omega arith;
}

records_roundtrip_example :
    (RemovePublication.decode (RemovePublication.encode remove_publication buffer).1
      ≡ some remove_publication)
    × (RemoveSubscription.decode (RemoveSubscription.encode remove_subscription buffer).1
        ≡ some remove_subscription)
    × (ClientKeepalive.decode (ClientKeepalive.encode client_keepalive buffer).1
        ≡ some client_keepalive)
    × (PublicationReady.decode (PublicationReady.encode publication_ready buffer).1
        ≡ some publication_ready)
    × (SubscriptionReady.decode (SubscriptionReady.encode subscription_ready buffer).1
        ≡ some subscription_ready)
records_roundtrip_example =
    records_roundtrip remove_publication remove_subscription client_keepalive publication_ready
      subscription_ready buffer remove_publication-InRange remove_subscription-InRange
      client_keepalive-InRange publication_ready-InRange subscription_ready-InRange (omega arith)

add_publication_channel_example :
    (h : AddPublication.AddPublication) × (AddPublication.from_channel 1 2 10 channel ≡ some h)
    × (AddPublication.decode (AddPublication.encode h buffer).1 ≡ some h)
    × (AddPublication.channel_str ascii h ≡ some channel)
add_publication_channel_example =
    add_publication_channel ascii 1 2 10 channel buffer (omega arith) (omega arith) (omega arith)
      (omega arith) refl (omega arith)

add_subscription_channel_example :
    (h : AddSubscription.AddSubscription) × (AddSubscription.from_channel 1 2 10 channel ≡ some h)
    × (AddSubscription.decode (AddSubscription.encode h buffer).1 ≡ some h)
    × (AddSubscription.channel_str ascii h ≡ some channel)
add_subscription_channel_example =
    add_subscription_channel ascii 1 2 10 channel buffer (omega arith) (omega arith) (omega arith)
      (omega arith) refl (omega arith)

operation_error_message_example :
    let h = OperationError.from_message 1 2 channel in
    (h.error_msg_len ≡ min 3 256)
    × (OperationError.decode (OperationError.encode h buffer).1 ≡ some h)
    × (OperationError.error_str ascii h ≡ some channel)
operation_error_message_example =
    operation_error_message ascii 1 2 channel buffer (omega arith) (omega arith) (omega arith)
