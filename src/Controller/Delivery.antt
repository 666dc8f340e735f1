-- ===== src/Controller/Delivery.antt =====
-- From `ObserveVar` to `notifyVarModification`: a client that has asked for a variable is told of its
-- changes.
use mathlib.Core.List.{Memᴰ}
use variables_and_streams_se.Base.{List}
use variables_and_streams_se.Base.Text.{Text}
use variables_and_streams_se.Controller.Notifying.{Notification}

-- The news of a change for an observation of the client.
abbrev pub news_for : Text → Text → Text → Text → Notification
news_for client meta name v = record {
  client_id = client;
  changed_name = name;
  metadata = meta;
  value = v;
}
