-- ===== src/ClientHelper/Keys.antt =====
-- The keys of what the database holds of the clients.
use variables_and_streams_se.Base.{◌++◌}
use variables_and_streams_se.Base.Text.{Text, codes}

-- "internal.clients.byId." + h.clientId
unfoldable pub client_key : Text → Text
client_key client = codes "internal.clients.byId." ++ client

unfoldable pub api_id_key : Text → Text
unfolding client_key
api_id_key client = client_key client ++ codes ".apiId"

unfoldable pub last_live_time_key : Text → Text
unfolding client_key
last_live_time_key client = client_key client ++ codes ".lastLiveTime"

unfoldable pub observing_node : Text → Text
unfolding client_key
observing_node client = client_key client ++ codes ".observing"

unfoldable pub observing_count_key : Text → Text
unfolding client_key
observing_count_key client = client_key client ++ codes ".observing.count"

-- "internal.clients.byId." + h.clientId + ".observing." + c
unfoldable pub observing_key : Text → Text → Text
unfolding client_key
observing_key client c = client_key client ++ (codes ".observing." ++ c)

unfoldable pub list_count_key : Text
list_count_key = codes "internal.clients.list.count"

unfoldable pub list_key : Text → Text
list_key i = codes "internal.clients.list." ++ i
