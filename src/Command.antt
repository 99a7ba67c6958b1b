-- ===== src/Command.antt =====
-- src/cnc/command.rs: the commands of the clients and the responses of the driver, of fixed size and
-- little-endian. A buffer is the list of its bytes; `encode` returns the count and the buffer after
-- it. A text is its bytes; which bytes are UTF-8 is the standard library's, a parameter of the
-- functions that read a text.
pub mod AddPublication
pub mod RemovePublication
pub mod AddSubscription
pub mod RemoveSubscription
pub mod ClientKeepalive
pub mod PublicationReady
pub mod SubscriptionReady
pub mod OperationError
pub mod Laws
mod Tests
use aeron_rs.Prelude.{ℕ, Bool, Option, none, some, if◌then◌else◌, ◌+◌, List, take, drop}
use aeron_rs.Prelude.Memory.{of_le}

abbrev pub cmd_add_publication : ℕ
cmd_add_publication = 1

abbrev pub cmd_remove_publication : ℕ
cmd_remove_publication = 2

abbrev pub cmd_add_subscription : ℕ
cmd_add_subscription = 3

abbrev pub cmd_remove_subscription : ℕ
cmd_remove_subscription = 4

abbrev pub cmd_client_keepalive : ℕ
cmd_client_keepalive = 5

abbrev pub cmd_client_close : ℕ
cmd_client_close = 6

abbrev pub rsp_publication_ready : ℕ
rsp_publication_ready = 101

abbrev pub rsp_subscription_ready : ℕ
rsp_subscription_ready = 102

abbrev pub rsp_operation_error : ℕ
rsp_operation_error = 103

abbrev pub rsp_driver_heartbeat : ℕ
rsp_driver_heartbeat = 104

abbrev pub error_unknown_command : ℕ
error_unknown_command = 1

abbrev pub error_channel_parse_failed : ℕ
error_channel_parse_failed = 2

abbrev pub error_publication_create_failed : ℕ
error_publication_create_failed = 3

abbrev pub error_subscription_create_failed : ℕ
error_subscription_create_failed = 4

abbrev pub error_registration_not_found : ℕ
error_registration_not_found = 5

abbrev pub error_generic : ℕ
error_generic = 100

-- `from_utf8(..).ok()`, with the standard library's test for UTF-8.
abbrev pub from_utf8 : (List ℕ → Bool) → List ℕ → Option (List ℕ)
from_utf8 is_utf8 text = if is_utf8 text then some text else none

abbrev pub max_channel_uri_length : ℕ
max_channel_uri_length = 256

abbrev pub max_error_msg_length : ℕ
max_error_msg_length = 256

abbrev pub add_publication_length : ℕ
add_publication_length = 280

abbrev pub remove_publication_length : ℕ
remove_publication_length = 24

abbrev pub add_subscription_length : ℕ
add_subscription_length = 280

abbrev pub remove_subscription_length : ℕ
remove_subscription_length = 24

abbrev pub client_keepalive_length : ℕ
client_keepalive_length = 16

abbrev pub publication_ready_length : ℕ
publication_ready_length = 32

abbrev pub subscription_ready_length : ℕ
subscription_ready_length = 12

abbrev pub operation_error_length : ℕ
operation_error_length = 272

-- The number in the `n` bytes from offset `off`.
abbrev pub field : List ℕ → ℕ → ℕ → ℕ
field buf off n = of_le (take n (drop off buf))
