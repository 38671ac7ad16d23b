-- ===== src/Config/Channels.antt =====
-- The validators of `ChannelConfig` and `ChannelSet` of src/tributo_broker_redis/config.py.
use text.Mathlib.TextLemmas.{append_cancel_right, append_assoc}
use tributo_broker_redis.Base.{
  String, ◌++ₛ◌, count, ◌≡◌, ◌≢◌, refl, Bool, true, false, not, ◌&&◌, ◌==◌, leb, arith, eq_iff,
}
use tributo_broker_redis.Patterns.{codes, is_field_name}
use tributo_broker_redis.Config.{ChannelConfig, ChannelSet, event_stream_key, cancel_key}

abbrev filled : String → Bool
filled s = leb 1 (count s)

-- `_valid_outer_identity_field`
unfoldable pub identity_field_accepted : String → Bool
unfolding is_field_name
identity_field_accepted value = is_field_name (codes value) && not (value == "payload")

-- `min_length=1` of five fields, and the outer identity field; `consumer_name` may be any text.
unfoldable pub channel_accepted : ChannelConfig → Bool
unfolding identity_field_accepted
channel_accepted channel =
    filled channel.task_stream_key
    && filled channel.event_stream_prefix
    && filled channel.cancel_key_prefix
    && filled channel.consumer_group
    && filled channel.group_start_id
    && identity_field_accepted channel.outer_identity_field

-- `_require_independent_channels`
unfoldable pub independent_channels : ChannelConfig → ChannelConfig → Bool
independent_channels a b =
    not (a.task_stream_key == b.task_stream_key)
    && not (a.event_stream_prefix == b.event_stream_prefix)
    && not (a.cancel_key_prefix == b.cancel_key_prefix)
    && not (a.consumer_group == b.consumer_group)

unfoldable pub channels_accepted : ChannelSet → Bool
unfolding channel_accepted independent_channels
channels_accepted channels =
    channel_accepted channels.training
    && channel_accepted channels.batch_inference
    && independent_channels channels.training channels.batch_inference

-- What the two channels share for no operation.
pub record AreIndependent (a b : ChannelConfig) : Type 0 where
  pub tasks : a.task_stream_key ≢ b.task_stream_key
  pub groups : a.consumer_group ≢ b.consumer_group
  pub events :
      (operation_id : String) → event_stream_key a operation_id ≢ event_stream_key b operation_id
  pub cancels : (operation_id : String) → cancel_key a operation_id ≢ cancel_key b operation_id

four :
    (a b c d : Bool)
    → (not a && not b && not c && not d) ≡ true
    → (a ≡ false) × (b ≡ false) × (c ≡ false) × (d ≡ false)
four a b c d h = ground arith

last_of : (a b c : Bool) → (a && b && c) ≡ true → c ≡ true
last_of a b c h = ground arith

ne_of_test : (s t : String) → (s == t) ≡ false → s ≢ t
ne_of_test s t h e = ground (arith, eq_iff s t)

key-ne :
    (p q operation_id : String)
    → p ≢ q
    → (p ++ₛ (":" ++ₛ operation_id)) ≢ (q ++ₛ (":" ++ₛ operation_id))
key-ne p q operation_id ne e = ne (append_cancel_right p q (":" ++ₛ operation_id) e)

-- In an accepted configuration the two channels never use the same task stream, consumer group, event
-- stream or cancel key for one and the same operation.
pub channels_accepted-AreIndependent :
    (channels : ChannelSet)
    → channels_accepted channels ≡ true
    → AreIndependent channels.training channels.batch_inference
unfolding channels_accepted independent_channels event_stream_key cancel_key
channels_accepted-AreIndependent channels h =
    let independent =
      last_of (channel_accepted channels.training) (channel_accepted channels.batch_inference) _
        h in
    let a = channels.training in
    let b = channels.batch_inference in
    let parts =
      four (a.task_stream_key == b.task_stream_key) (a.event_stream_prefix == b.event_stream_prefix)
        (a.cancel_key_prefix == b.cancel_key_prefix) (a.consumer_group == b.consumer_group)
        independent in
    record {
      tasks = ne_of_test _ _ parts.0;
      groups = ne_of_test _ _ parts.3;
      events = λ operation_id. key-ne _ _ operation_id (ne_of_test _ _ parts.1);
      cancels = λ operation_id. key-ne _ _ operation_id (ne_of_test _ _ parts.2);
    }

-- For two different operations the keys may meet: where one prefix is the other with `:` and a text `y`
-- behind it, the operation `y:z` of the one channel and the operation `z` of the other have one event
-- stream.
pub event_stream_key-meets :
    (a b : ChannelConfig) (y z : String)
    → b.event_stream_prefix ≡ a.event_stream_prefix ++ₛ (":" ++ₛ y)
    → event_stream_key a (y ++ₛ (":" ++ₛ z)) ≡ event_stream_key b z
unfolding event_stream_key
event_stream_key-meets a b y z h =
    rw
      (
        h,
        append_assoc a.event_stream_prefix (":" ++ₛ y) (":" ++ₛ z),
        append_assoc ":" y (":" ++ₛ z),
      )
      refl
