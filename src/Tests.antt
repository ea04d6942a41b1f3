-- ===== src/Tests.antt =====
-- Small inputs: what the code does on them, and the theorems applied to them.
mod Names
mod Shapes
mod Layouts
mod Services
mod Logs
mod Rolls
mod Models
mod Fakes
mod Lifecycles
mod Checks
mod Wire
mod Daemons
mod Views
mod Charts
mod Kube
