-- ===== src/Ext.antt =====
-- src/ext/tags.cpp: the names of the standard tags, and the two values of `span_kind`.
pub mod Distinct
use opentracing_cpp.Base.{Bytes, codes}

-- One constructor for each constant that is the name of a tag.
pub data StandardTag : Type 0 where
  span_kind error component sampling_priority peer_service peer_hostname : StandardTag
  peer_address peer_host_ipv4 peer_host_ipv6 peer_port http_url http_method : StandardTag
  http_status_code database_instance database_statement database_type database_user : StandardTag
  message_bus_destination : StandardTag

-- The string that the constant shows.
unfoldable pub tag_name : StandardTag → Bytes
tag_name span_kind = codes "span.kind"
tag_name error = codes "error"
tag_name component = codes "component"
tag_name sampling_priority = codes "sampling.priority"
tag_name peer_service = codes "peer.service"
tag_name peer_hostname = codes "peer.hostname"
tag_name peer_address = codes "peer.address"
tag_name peer_host_ipv4 = codes "peer.ipv4"
tag_name peer_host_ipv6 = codes "peer.ipv6"
tag_name peer_port = codes "peer.port"
tag_name http_url = codes "http.url"
tag_name http_method = codes "http.method"
tag_name http_status_code = codes "http.status_code"
tag_name database_instance = codes "db.instance"
tag_name database_statement = codes "db.statement"
tag_name database_type = codes "db.type"
tag_name database_user = codes "db.user"
tag_name message_bus_destination = codes "message_bus.destination"

abbrev pub span_kind_rpc_client : Bytes
span_kind_rpc_client = codes "client"

abbrev pub span_kind_rpc_server : Bytes
span_kind_rpc_server = codes "server"
