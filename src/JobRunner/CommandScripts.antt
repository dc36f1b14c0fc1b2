-- ===== src/JobRunner/CommandScripts.antt =====
-- The shell scripts of RunHelmCommand and RunHostCommand.
use k4all_operator.Base.{String, ◌<>◌}

-- The script of a helm command with its arguments, joined by spaces.
abbrev pub helm_script : String → String
helm_script args =
    "#!/bin/bash\n" <> "set -e\n" <> "\n" <> "# Create output directory\n"
    <> "mkdir -p /tmp/helm-output\n" <> "\n"
    <> "# Try to use host's helm if available, otherwise use container's\n"
    <> "if [ -f \"/host/usr/local/bin/helm\" ]; then\n" <> "    echo \"Using host's helm binary\"\n"
    <> "    cp /host/usr/local/bin/helm /bin/helm\n" <> "    chmod +x /bin/helm\n" <> "fi\n" <> "\n"
    <> "echo \"Running helm command: helm " <> args <> "\"\n"
    <> "# Execute helm command and capture output to file\n" <> "helm " <> args
    <> " > /tmp/helm-output/result.txt 2>/tmp/helm-output/error.txt || true\n" <> "EXIT_CODE=$?\n"
    <> "\n" <> "# Save exit code\n" <> "echo $EXIT_CODE > /tmp/helm-output/exit-code.txt\n" <> "\n"
    <> "# Print the output for the logs\n" <> "echo \"=== Helm Command Output ===\"\n"
    <> "cat /tmp/helm-output/result.txt\n" <> "echo \"=== Helm Command Error Output ===\"\n"
    <> "cat /tmp/helm-output/error.txt\n" <> "echo \"=== End of Helm Command Output ===\"\n" <> "\n"
    <> "# Don't exit, just return the exit code for the main script\n"
    <> "echo \"Helm command completed with exit code: $EXIT_CODE\"\n" <> "exit $EXIT_CODE\n"

-- The script of a command on the host.
abbrev pub host_script : String → String
host_script command =
    "#! /bin/bash\n" <> "# Link utils\n" <> "echo \"Sourcing utils\"\n"
    <> "# source utils only if the file exists, else source k4all-utils\n"
    <> "if [ -f /usr/local/bin/control-plane-utils ]; then\n"
    <> "    source /usr/local/bin/control-plane-utils\n" <> "else\n"
    <> "    source /usr/local/bin/k4all-utils\n" <> "fi\n" <> "\n" <> "# Create output directory\n"
    <> "mkdir -p /tmp/cmd-output\n" <> "\n"
    <> "# Execute the host command using the host-command wrapper\n"
    <> "echo \"Running host command: " <> command <> "\"\n" <> command
    <> " > /tmp/cmd-output/result.txt 2>/tmp/cmd-output/error.txt || true\n" <> "EXIT_CODE=$?\n"
    <> "\n" <> "# Print the output for the logs\n" <> "echo \"=== Command Output ===\"\n"
    <> "cat /tmp/cmd-output/result.txt\n" <> "echo \"=== Command Error Output ===\"\n"
    <> "cat /tmp/cmd-output/error.txt\n" <> "echo \"=== End of Command Output ===\"\n" <> "\n"
    <> "echo \"Command completed with exit code: $EXIT_CODE\"\n" <> "exit $EXIT_CODE\n" <> "\n"
    <> "echo \"Utils sourced, cluster ip: \"\n"
