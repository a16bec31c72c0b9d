-- ===== src/Net.antt =====
-- deltabase/src/network: the messages of the protocol and the results of queries, as bytes. Sockets and
-- threads are not modelled.
pub mod BigEndian
pub mod Message
pub mod Protocol
pub mod Results
