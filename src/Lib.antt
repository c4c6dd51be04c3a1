-- ===== src/Lib.antt =====
-- Bubot_CoAP: a CoAP server and client on an event loop. A datagram or the bytes of a stream become
-- a message (src/Bubot_CoAP/serializer_udp.py, serializer_tcp.py), which is a list of typed options
-- beside a header and a payload (messages/message.py, messages/option.py, defines.py). The layers of
-- src/Bubot_CoAP/layers work on messages; on the way out a serializer turns a message into bytes.
--
-- The parts and their files:
-- Defines is src/Bubot_CoAP/defines.py. The registry is an association list from the option number;
--   get_option_flags takes the byte order of the machine, on which struct's format "H" depends.
--   Defines.ContentTypes is the dict Content_types.
-- Utils is byte_len, parse_blockwise and check_nocachekey of src/Bubot_CoAP/utils.py.
-- Text is Python's str with its encodings, Text.Parts strip, split, join and startswith.
-- Messages.Value is what Python values an option or a payload holds. Messages.CoapOption: option.py,
--   the setter (stored, set_value) and the getter (read, get_value). Messages.Message,
--   Messages.Options and Messages.Accessors: message.py, the setters with their checks, the list of
--   options, and the properties for block1, block2, size1, size2, observe and content_type;
--   Messages.Accessors.Options has etag and the deleters, Messages.Attributes the setters of the
--   other attributes. Messages.Options.Values: the values of all options of a number.
--   Messages.Payload: decode_payload and encode_payload, where cbor2 is a record that every user takes
--   as an argument. Messages.Request: messages/request.py, the path and the query; Request.Fields the
--   other options, Request.Query the property query. Messages.Response: messages/response.py.
-- Serializer is the helpers and the loops that the serializers share (Decode for reading, Encode for
--   writing, Pack for struct, Words for bytes of integers). Serializer.Udp and Serializer.Tcp:
--   deserialize and serialize of the two transports, with extract_message_size and encode_length.
--   Serializer.Wire is a description of the format that stands apart from the code; Wire.Writes and
--   Reading relate both directions to it.
-- Transaction: src/Bubot_CoAP/transaction.py. Utils.Keys: utils.str_append_hash; Python's lower and
--   hash are a record of functions that every user takes as an argument.
-- Layers.Block: src/Bubot_CoAP/layers/block_layer.py. Its four tables are association lists from the
--   key of a peer's address and token. Layers.Block has the requests that come in,
--   Layers.Block.Responses the responses that come in, Layers.Block.Sending what goes out. A call
--   takes the layer and the transaction and returns both; what a call that raises has changed before
--   is not modelled.
-- Layers.Table is a Python dict whose keys are ints, bytes or None.
-- Layers.MessageLayer: src/Bubot_CoAP/layers/message_layer.py. Transactions are objects that several
--   tables share, so the tables hold numbers of cells and the layer has the store. The module itself
--   has what comes in, Sending send_request and send_response, Empty send_empty, Purge purge. A
--   transaction holds its messages by value: two transactions that share a request object, as
--   send_block_request makes them, do not see each other's writes.
-- Layers.ObserveLayer: src/Bubot_CoAP/layers/observe_layer.py, notify and remove_subscriber in Notify.
-- Layers.CallbackLayer: src/Bubot_CoAP/layers/callback_layer.py, with wait in two parts.
-- Layers.RequestLayer: src/Bubot_CoAP/layers/request_layer.py; the resource layer is a record of its
--   operations that every user takes as an argument.
-- Layers.ResourceLayer: src/Bubot_CoAP/layers/resource_layer.py, an implementation of that record. A
--   handler of a resource is a function of the resources, the request and the response to what it has
--   changed of them and the result it gives; it may be async or not, and may raise, and a call that
--   does not give it the arguments it takes is a TypeError. The module itself
--   has what the operations share and GET, Post create_resource, edit_resource and add_resource, Put
--   update_resource, Delete delete_resource, Discovery discover. Contract has what the layer promises.
--   The handlers, and send_ack of the server, are arguments. A resource is a number, under which the
--   directory has its attributes.
-- Resources: src/Bubot_CoAP/resources/resource.py, Contents the payloads, the ETag and the setters of
--   the link attributes, Links how the discovery prints these.
-- Server.Directory is add_resource and remove_resource of src/Bubot_CoAP/server.py, on utils.Tree;
--   Server.Directory.Prefixes is Tree.with_prefix.
--   Server.Retransmission is start_retransmission and _retransmit: what the task sees after each of
--   its awaits is an argument. Its loop runs on fuel 6, and Server.Retransmission.Bounds shows that
--   no run takes more.
--   Server.Pipeline is receive_request with notify: the layers in the order of the code, and the
--   datagrams that go out. Server.Reception is what a request and an empty message of
--   src/Bubot_CoAP/coap_protocol.py do to the server before and after it, with send_ack.
--   Server.Exchange is send_message, up to its wait and from it on, send_block_request, and what a
--   response does to the server.
-- Stream: data_received of src/Bubot_CoAP/coap_tcp_protocol.py, from the spool and the bytes that come
--   to the spool that is left and the event.
--
-- A call ends in an Outcome: it returns a value, or raises one of the exceptions that the code can
-- raise. The loop over the options runs on fuel, which the callers set to the number of bytes that
-- are left; Serializer.Decode.Ends shows that this is enough for every datagram. Integers are
-- natural numbers: the program makes no negative option value. UTF-8 is written out in Text, since
-- the lengths of options depend on it. What the program draws at random, a token, is an argument.
--
-- Not modelled: sockets, the event loop and TLS; logging and printing; the address family of a
-- destination, which getaddrinfo gives; cbor2 and the resources' handlers beyond what the parameters
-- say of them; the lock of a transaction; the URIs of utils.py, which stand on urllib; a datagram
-- that cannot be sent; the start of endpoints and clients.
pub mod Prelude
pub mod Dict
pub mod Outcome
pub mod Text
pub mod Defines
pub mod Utils
pub mod Messages
pub mod Serializer
pub mod Transaction
pub mod Resources
pub mod Layers
pub mod Server
pub mod Stream
pub mod Tests
