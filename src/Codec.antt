-- ===== src/Codec.antt =====
-- Decoding of the framework's messages. The protobuf runtime is not part of the repository: its two
-- ways to decode are the parameter `Codec`.
use angzarr_client_go.Proto.{Bytes, Any, Notification, RejectionNotification}
use angzarr_client_go.Errors.{Result}

pub record Codec : Type 0 where
  -- `proto.Unmarshal` of the bytes, whatever the type URL says.
  pub unmarshal_notification : Bytes → Result Notification
  pub unmarshal_rejection : Bytes → Result RejectionNotification
  -- `UnmarshalTo` of an `Any`, which compares the type URL first.
  pub unmarshal_to_notification : Any → Result Notification
  pub unmarshal_to_rejection : Any → Result RejectionNotification
