-- ===== src/Tests.antt =====
-- Runs of the model on concrete inputs, and each theorem with hypotheses at an input that meets
-- them.
mod Request
mod Response
mod Reactor
mod Server
mod Exchange
mod Net
mod Db
mod Threads
mod Registry
mod Loop
mod Replies
mod Loops
mod Stages
mod Interleaving
