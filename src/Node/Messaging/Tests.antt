-- ===== src/Node/Messaging/Tests.antt =====
-- A node that gets a probe.
use lohpi.Common.{codes, ok, ◌≡◌, none, some, []}
use lohpi.Proto.{Node}
use lohpi.Messages.{Message, message_of_type}
use lohpi.Messages.Memory.{plain_channel, plain_channel-IsAnswering}
use lohpi.Node.Messaging.{IfritState, acknowledge_probe}
use lohpi.Node.Messaging.Probes.{SendsBack, acknowledge_probe-SendsBack}

abbrev me : Node
me = record {
  name = "n";
  ifrit_address = "10.0.0.1:5000";
  id = [];
  https_address = "10.0.0.1";
  port = 9000;
  boot_time = none;
}

abbrev probe : Message
probe = record (message_of_type "MSG_TYPE_PROBE") {
  probe = some (record { order = 1; session_id = codes "s" });
}

abbrev quiet : IfritState plain_channel me
quiet = record { gossip_content = none; sent = [] }

acknowledge_probe-SendsBack_example :
    let result = acknowledge_probe plain_channel me "10.0.0.2:5000" probe quiet in
    (result.1 ≡ ok (plain_channel.of_text []))
    × (result.0.gossip_content ≡ plain_channel.marshal probe)
    × SendsBack plain_channel me probe "10.0.0.2:5000" quiet result.0
acknowledge_probe-SendsBack_example =
    acknowledge_probe-SendsBack plain_channel me plain_channel-IsAnswering "10.0.0.2:5000" probe
      quiet
