-- ===== src/Ext/Distinct.antt =====
-- Standard tags of src/ext/tags.cpp that are set on a span of mocktracer.
use opentracing_cpp.Base.{
  ◌≡◌, ◌≢◌, refl, sym, ap, ◌∙◌, Option, none, some, Bytes, codes, if◌then◌else◌,
}
use opentracing_cpp.Error.{same_bytes}
use opentracing_cpp.Dict.{find}
use opentracing_cpp.SpanData.{Value}
use opentracing_cpp.Span.{MockSpan, set_tag}
use opentracing_cpp.Span.Start.{IsOrdered, set_tag_lem}
use opentracing_cpp.Ext.{
  StandardTag, tag_name, span_kind, error, component, sampling_priority, peer_service,
  peer_hostname, peer_address, peer_host_ipv4, peer_host_ipv6, peer_port, http_url, http_method,
  http_status_code, database_instance, database_statement, database_type, database_user,
  message_bus_destination,
}

-- The tag of a name.
abbrev tag_of : Bytes → Option StandardTag
tag_of s =
    if same_bytes s (codes "span.kind")
    then some span_kind
    else if same_bytes s (codes "error")
    then some error
    else if same_bytes s (codes "component")
    then some component
    else if same_bytes s (codes "sampling.priority")
    then some sampling_priority
    else if same_bytes s (codes "peer.service")
    then some peer_service
    else if same_bytes s (codes "peer.hostname")
    then some peer_hostname
    else if same_bytes s (codes "peer.address")
    then some peer_address
    else if same_bytes s (codes "peer.ipv4")
    then some peer_host_ipv4
    else if same_bytes s (codes "peer.ipv6")
    then some peer_host_ipv6
    else if same_bytes s (codes "peer.port")
    then some peer_port
    else if same_bytes s (codes "http.url")
    then some http_url
    else if same_bytes s (codes "http.method")
    then some http_method
    else if same_bytes s (codes "http.status_code")
    then some http_status_code
    else if same_bytes s (codes "db.instance")
    then some database_instance
    else if same_bytes s (codes "db.statement")
    then some database_statement
    else if same_bytes s (codes "db.type")
    then some database_type
    else if same_bytes s (codes "db.user")
    then some database_user
    else if same_bytes s (codes "message_bus.destination")
    then some message_bus_destination
    else none

tag_of-tag_name : (t : StandardTag) → tag_of (tag_name t) ≡ some t
unfolding tag_name same_bytes
tag_of-tag_name span_kind = refl
tag_of-tag_name error = refl
tag_of-tag_name component = refl
tag_of-tag_name sampling_priority = refl
tag_of-tag_name peer_service = refl
tag_of-tag_name peer_hostname = refl
tag_of-tag_name peer_address = refl
tag_of-tag_name peer_host_ipv4 = refl
tag_of-tag_name peer_host_ipv6 = refl
tag_of-tag_name peer_port = refl
tag_of-tag_name http_url = refl
tag_of-tag_name http_method = refl
tag_of-tag_name http_status_code = refl
tag_of-tag_name database_instance = refl
tag_of-tag_name database_statement = refl
tag_of-tag_name database_type = refl
tag_of-tag_name database_user = refl
tag_of-tag_name message_bus_destination = refl

some_injective : (s t : StandardTag) → some s ≡ some t → s ≡ t
some_injective s t e = cc

tag_name-injective : (s t : StandardTag) → tag_name s ≡ tag_name t → s ≡ t
tag_name-injective s t e =
    some_injective s t (sym (tag_of-tag_name s) ∙ ap tag_of e ∙ tag_of-tag_name t)

-- Two different standard tags have different names: in a span whose maps are in order, to set one of them
-- gives it the value and leaves the value of the other.
set_tag-tag_name :
    (t other : StandardTag) (value : Value) (span : MockSpan)
    → IsOrdered span
    → t ≢ other
    → (find (tag_name t) (set_tag (tag_name t) value span).data_.tags ≡ some value)
      × (find (tag_name other) (set_tag (tag_name t) value span).data_.tags
          ≡ find (tag_name other) span.data_.tags)
set_tag-tag_name t other value span ordered ne =
    set_tag_lem (tag_name t) (tag_name other) value span ordered
      (λ e. ne (tag_name-injective t other e))
