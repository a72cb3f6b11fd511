-- ===== src/Channels.antt =====
-- channels/normalize.py, channels/base.py and schemas/channel.py: messages of chat channels, which
-- become lifecycle events with their trust label. The children hold the bindings of senders, the
-- authorization of their actions, and the feedback queue.
pub mod Identity
pub mod Intake
pub mod Policy
use forge_os.Base.{String, none, List, [], ◌∷◌}
use forge_os.Events.Model.{LifecycleEvent, new_event, text as text_value}

pub data TrustLevel : Type 0 where
  untrusted trusted : TrustLevel

pub record ChannelMessage : Type 0 where
  pub channel_id : String
  pub sender : String
  pub text : String
  pub trust_level : TrustLevel

show_trust : TrustLevel → String
show_trust untrusted = "untrusted"
show_trust trusted = "trusted"

pub normalize_message : String → String → ChannelMessage → LifecycleEvent
normalize_message uuid timestamp message =
    new_event uuid timestamp "UserPromptSubmit" none "channel" message.sender (
      ("channel_id", text_value message.channel_id)
      ∷ ("text", text_value message.text)
      ∷ ("trust_level", text_value (show_trust message.trust_level))
      ∷ ("source", text_value "channel")
      ∷ [])

-- `BaseChannelAdapter.on_message`
pub on_message : String → String → String → String → String → LifecycleEvent
on_message uuid timestamp channel_id text sender =
    normalize_message uuid timestamp
      (record { channel_id = channel_id; sender = sender; text = text; trust_level = untrusted })
