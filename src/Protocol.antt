-- ===== src/Protocol.antt =====
-- ApolloProtocol.c: the handlers of the packets of devices and phones, and the loop that calls them.
pub mod Phone
pub mod Device
pub mod User
pub mod Blocks
pub mod Parse
pub mod Mailbox
pub mod Numbers
pub mod Delivery
pub mod Account
pub mod Upload
pub mod Download
pub mod Loop
pub mod Arrival
pub mod Answers
pub mod Passage
pub mod Report
pub mod Runs
pub mod Frame
pub mod Examples
