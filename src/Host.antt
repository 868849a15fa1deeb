-- ===== src/Host.antt =====
-- The host application of `shared/python/pyxcp_host`: the endpoint that the user enters, the
-- session with its DAQ acquisition, and the view model that the windows call.
pub mod Endpoint
pub mod Connection
pub mod ViewModel
pub mod Clock
