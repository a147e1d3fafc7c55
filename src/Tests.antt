-- ===== src/Tests.antt =====
-- Concrete runs of the model, with the theorems applied to them.
mod Sample
mod SpoolTest
mod PostbackTest
mod CycleTest
mod PluginsTest
mod InterpreterTest
mod AgentTest
mod InstallTest
mod SystemTest
mod CliTest
mod DiagnosticTest
mod ProgramTest
